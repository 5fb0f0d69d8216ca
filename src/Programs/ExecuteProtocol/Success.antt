-- ===== src/Programs/ExecuteProtocol/Success.antt =====
-- A run of the client that ends with 0: every step before the result succeeded.
use Prim.Native.String.{◌++◌ as append}
use private_join_and_compute.Prelude.{ℕ, List, [], ◌∷◌, ◌++◌, ◌≡◌, sym, ap}
use private_join_and_compute.Prelude.Int.{ℤ, pos}
use private_join_and_compute.Prelude.Bytes.{Bytes}
use private_join_and_compute.Util.Result.{ok}
use private_join_and_compute.Util.Exec.{continue-ok}
use private_join_and_compute.Crypto.OpenSsl.{OpenSsl}
use private_join_and_compute.Crypto.BigNum
use private_join_and_compute.Crypto.BigNum.{BigNum}
use private_join_and_compute.Crypto.Flags.{Flags}
use private_join_and_compute.Match.{ServerRoundOne, ClientRoundOne, ServerRoundTwo}
use private_join_and_compute.Client.{Client, make_client, re_encrypt_set, decrypt_sum}
use private_join_and_compute.Data.Absl.{Absl}
use private_join_and_compute.Data.Files.{Files, read_client_dataset_from_file}
use private_join_and_compute.Programs.{Line, out, Terminal, or_complain-zero}
use private_join_and_compute.Programs.ExecuteProtocol.{
  Stub, ClientFlags, received, or_refused-zero, output_result, decrypt_step, round_two_step,
  re_encrypt_step, start_step, keys_step, execute_protocol,
}

module _ ⦃terminal : Terminal⦄ where
  -- The line that a successful run ends with.
  abbrev pub result_line : ℤ → ℕ → Line
  result_line size value = out (
      append "Client: The intersection size is " (
        append (terminal.int_text size)
          (append " and the intersection-sum is " (terminal.int_text (pos value)))))

module _ ⦃lib : OpenSsl⦄ ⦃absl : Absl⦄ ⦃files : Files⦄ ⦃terminal : Terminal⦄ ⦃stub : Stub⦄
    (fuel : ℕ) (flags : Flags) where
  decrypt_step-zero :
      (client : Client lib) (message : ServerRoundTwo) (s s' : List Line × (lib.Rng × stub.Net))
      → decrypt_step fuel flags client message s ≡ (ok 0, s')
      → (size : ℤ) × (sum : BigNum) × (value : ℕ) × (decrypt_sum client message ≡ ok (size, sum))
        × (BigNum.to_int_value sum ≡ ok value)
        × (earlier : List Line) × (s'.0 ≡ earlier ++ (result_line size value ∷ []))
  unfolding decrypt_step output_result
  decrypt_step-zero client message s s' h =
      let ((size, sum), decrypted, h₁) = or_complain-zero (decrypt_sum client message) _ _ _ s' h in
      let (value, fits, h₂) = or_complain-zero (BigNum.to_int_value sum) _ _ _ s' h₁ in
      (size, sum, value, decrypted, fits, _, ap (λ r. r.1.0) (sym h₂))

  re_encrypt_step-zero :
      (client : Client lib) (message : ServerRoundOne) (console : List Line) (g : lib.Rng)
      (net : stub.Net) (s' : List Line × (lib.Rng × stub.Net))
      → re_encrypt_step fuel flags client message (console, (g, net)) ≡ (ok 0, s')
      → (request : ClientRoundOne) × (response : ServerRoundTwo) × (size : ℤ) × (sum : BigNum)
        × (value : ℕ) × ((re_encrypt_set fuel flags message (client, g)).0 ≡ ok request)
        × ((stub.execute_server_round_two request net).0 ≡ received response)
        × (decrypt_sum (re_encrypt_set fuel flags message (client, g)).1.0 response
            ≡ ok (size, sum))
        × (BigNum.to_int_value sum ≡ ok value)
        × (earlier : List Line) × (s'.0 ≡ earlier ++ (result_line size value ∷ []))
  unfolding re_encrypt_step round_two_step
  re_encrypt_step-zero client message console g net s' h =
      let (request, encrypted, h₁) =
        or_complain-zero (re_encrypt_set fuel flags message (client, g)).0 _ _ _ s' h in
      let (response, answered, h₂) =
        or_refused-zero (stub.execute_server_round_two request net).0 _ _ _ s' h₁ in
      let (size, sum, value, decrypted, fits, earlier, printed) =
        decrypt_step-zero (re_encrypt_set fuel flags message (client, g)).1.0 response _ s' h₂ in
      (request, response, size, sum, value, encrypted, answered, decrypted, fits, earlier, printed)

  -- The client ends with the exit code 0 only where its file was read, its keys were made, both calls
  -- were answered with success, and the sum was decrypted and fits 64 bits, each step from what the one
  -- before gave; and the last line that it prints is then the size and the sum.
  pub execute_protocol-zero :
      (options : ClientFlags) (disk : files.Disk) (console : List Line) (g : lib.Rng)
      (net : stub.Net) (s' : List Line × (lib.Rng × stub.Net))
      → execute_protocol fuel flags options disk (console, (g, net)) ≡ (ok 0, s')
      → (items : List Bytes × List BigNum) × (client : Client lib) × (first : ServerRoundOne)
        × (request : ClientRoundOne) × (response : ServerRoundTwo) × (size : ℤ) × (sum : BigNum)
        × (value : ℕ) × (read_client_dataset_from_file options.client_data_file disk ≡ ok items)
        × ((make_client items.0 items.1 options.paillier_modulus_size g).0 ≡ ok client)
        × ((stub.start_protocol net).0 ≡ received first)
        × ((re_encrypt_set fuel flags first
              (client, (make_client items.0 items.1 options.paillier_modulus_size g).1)).0
            ≡ ok request)
        × ((stub.execute_server_round_two request (stub.start_protocol net).1).0
            ≡ received response)
        × (decrypt_sum
              (re_encrypt_set fuel flags first
                (client, (make_client items.0 items.1 options.paillier_modulus_size g).1)).1.0
              response
            ≡ ok (size, sum))
        × (BigNum.to_int_value sum ≡ ok value)
        × (earlier : List Line) × (s'.0 ≡ earlier ++ (result_line size value ∷ []))
  unfolding execute_protocol keys_step start_step
  execute_protocol-zero options disk console g net s' h =
      let (items, read, h₁) =
        or_complain-zero (read_client_dataset_from_file options.client_data_file disk) _ _ _ s' h in
      let size_bits = options.paillier_modulus_size in
      let (client, made, h₂) = continue-ok (make_client items.0 items.1 size_bits g).0 _ _ s' h₁ in
      let (first, started, h₃) = or_refused-zero (stub.start_protocol net).0 _ _ _ s' h₂ in
      let (
        request, response, size, sum, value, encrypted, answered, decrypted, fits, earlier, printed,
      ) =
        re_encrypt_step-zero client first _ (make_client items.0 items.1 size_bits g).1
          (stub.start_protocol net).1 s' h₃ in
      (
        items, client, first, request, response, size, sum, value, read, made, started, encrypted,
        answered, decrypted, fits, earlier, printed,
      )
