-- ===== src/Programs/ExecuteProtocol.antt =====
-- ExecuteProtocol (client.cc): the client's side of one run, from its file to the printed result.
pub mod Success
use Prim.Native.String.{String, ◌++◌ as append}
use private_join_and_compute.Prelude.{ℕ, ◌≡◌, refl, arith, List}
use private_join_and_compute.Prelude.Int.{ℤ, pos}
use private_join_and_compute.Prelude.Bytes.{Bytes}
use private_join_and_compute.Util.Result.{ok}
use private_join_and_compute.Util.Exec.{Exec, pure, continue, ◌>>◌}
use private_join_and_compute.Crypto.OpenSsl.{OpenSsl}
use private_join_and_compute.Crypto.BigNum
use private_join_and_compute.Crypto.BigNum.{BigNum}
use private_join_and_compute.Crypto.Flags.{Flags}
use private_join_and_compute.Match.{ServerRoundOne, ClientRoundOne, ServerRoundTwo}
use private_join_and_compute.Client.{Client, make_client, re_encrypt_set, decrypt_sum}
use private_join_and_compute.Data.Absl.{Absl}
use private_join_and_compute.Data.Files.{Files, read_client_dataset_from_file}
use private_join_and_compute.Programs.{Line, Terminal, say, complain, or_complain}

-- What a call over the channel comes back with: the response, or the error_message of a status that
-- is not OK.
pub data Answer (A : Type 0) : Type 0 where
  received : A → Answer A
  refused : String → Answer A

-- PrivateJoinAndComputeRpc::Stub, by the state of the network.
pub record Stub : Type 1 where
  pub Net : Type 0
  pub start_protocol : Net → Answer ServerRoundOne × Net
  pub execute_server_round_two : ClientRoundOne → Net → Answer ServerRoundTwo × Net

-- --client_data_file and --paillier_modulus_size, which is not negative
pub record ClientFlags : Type 0 where
  pub client_data_file : String
  pub paillier_modulus_size : ℕ

-- `if (!status.ok()) { std::cerr << start << status.error_message() << std::endl; return 1; }`
unfoldable pub or_refused :
    {S A : Type 0} → Answer A → String → (A → Exec (List Line × S) ℕ) → Exec (List Line × S) ℕ
or_refused (received a) start next s = next a s
or_refused (refused message) start next s = complain (append start message) s

pub or_refused-zero :
    {S A : Type 0} (answer : Answer A) (start : String) (next : A → Exec (List Line × S) ℕ)
    (s s' : List Line × S)
    → or_refused answer start next s ≡ (ok 0, s')
    → (a : A) × (answer ≡ received a) × (next a s ≡ (ok 0, s'))
unfolding or_refused
or_refused-zero (received a) start next s s' h = (a, refl, h)
or_refused-zero (refused message) start next s s' h = absurd (ground (arith, h))

module _ ⦃lib : OpenSsl⦄ ⦃absl : Absl⦄ ⦃files : Files⦄ ⦃terminal : Terminal⦄ ⦃stub : Stub⦄
    (fuel : ℕ) (flags : Flags) where
  abbrev pub Run : Type 0
  Run = Exec (List Line × (lib.Rng × stub.Net)) ℕ

  -- Output the result.
  unfoldable pub output_result : ℤ × BigNum → Run
  unfolding or_complain
  output_result (size, sum) =
      or_complain (BigNum.to_int_value sum)
        "Client::ExecuteProtocol: failed to recover the intersection sum: "
        λ value.
          say (
            append "Client: The intersection size is " (
              append (terminal.int_text size)
                (append " and the intersection-sum is " (terminal.int_text (pos value)))))
          >> pure 0

  -- Compute the intersection size and sum.
  unfoldable pub decrypt_step : Client lib → ServerRoundTwo → Run
  unfolding output_result
  decrypt_step client server_round_two =
      say "Client: Received response from the server. Decrypting the intersection-sum."
      >> or_complain (decrypt_sum client server_round_two)
          "Client::ExecuteProtocol: failed to DecryptSum: " output_result

  -- Execute ServerRoundTwo.
  unfoldable pub round_two_step : Client lib → ClientRoundOne → Run
  unfolding decrypt_step
  round_two_step client client_round_one = do
    say
        "Client: Sending double encrypted server data and single-encrypted client data to the server."
    say "Client: Waiting for encrypted intersection sum..."
    λ (console, (g, net)).
        let (answer, net') = stub.execute_server_round_two client_round_one net in
        or_refused answer "Client::ExecuteProtocol: failed to ExecuteServerRoundTwo: "
          (decrypt_step client) (console, (g, net'))

  -- Execute ClientRoundOne.
  unfoldable pub re_encrypt_step : Client lib → ServerRoundOne → Run
  unfolding round_two_step
  re_encrypt_step client server_round_one =
      say "Client: Received encrypted set from the server, double encrypting..."
      >> λ (console, (g, net)).
          let (r, (client', g')) = re_encrypt_set fuel flags server_round_one (client, g) in
          or_complain r "Client::ExecuteProtocol: failed to ReEncryptSet: " (round_two_step client')
            (console, (g', net))

  -- Execute StartProtocol.
  unfoldable pub start_step : Client lib → Run
  unfolding re_encrypt_step
  start_step client = do
    say "Client: Starting the protocol."
    say "Client: Waiting for response and encrypted set from the server..."
    λ (console, (g, net)).
        let (answer, net') = stub.start_protocol net in
        or_refused answer "Client::ExecuteProtocol: failed to StartProtocol: "
          (re_encrypt_step client) (console, (g, net'))

  unfoldable pub keys_step : ℕ → List Bytes × List BigNum → Run
  unfolding start_step
  keys_step modulus_size (identifiers, values) =
      say "Client: Generating keys..." >> λ (console, (g, net)).
      let (r, g') = make_client identifiers values modulus_size g in
      continue r start_step (console, (g', net))

  unfoldable pub execute_protocol : ClientFlags → files.Disk → Run
  unfolding keys_step
  execute_protocol options disk =
      say "Client: Loading data..."
      >> or_complain (read_client_dataset_from_file options.client_data_file disk)
          "Client::ExecuteProtocol: failed " (keys_step options.paillier_modulus_size)
