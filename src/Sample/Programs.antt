-- ===== src/Sample/Programs.antt =====
-- The client's program and the generator of test data at concrete inputs.
use Prim.Native.String.{String}
use text.Mathlib.Text.{◌==◌}
use text.Mathlib.TextEquality.{eq_iff}
use private_join_and_compute.Prelude.{
  ℕ, ◌+◌, ◌<◌, ◌≤◌, ◌≡◌, ◌≢◌, refl, true, none, some, List, [], ◌∷◌, ◌++◌, map, length, All, arith,
}
use private_join_and_compute.Prelude.Int.{ℤ, pos, ◌+ℤ◌, ◌-ℤ◌, ◌*ℤ◌, mod_ℤ}
use private_join_and_compute.Prelude.Bytes.{Bytes, bytes_lt, codes}
use private_join_and_compute.Util.Result.{ok}
use private_join_and_compute.Crypto.BigNum
use private_join_and_compute.Crypto.BigNum.{BigNum}
use private_join_and_compute.Crypto.Context
use private_join_and_compute.Crypto.EcGroup
use private_join_and_compute.Crypto.CommutativeCipher
use private_join_and_compute.Crypto.Paillier.Private
use private_join_and_compute.Std.{sort, insert}
use private_join_and_compute.Match.{ServerRoundOne, ClientRoundOne, ServerRoundTwo}
use private_join_and_compute.Client.{
  Client, make_client, encrypt_items, answer, re_encrypt_set, decrypt_sum,
}
use private_join_and_compute.Protocol.Join
use private_join_and_compute.Data.Csv.{split_csv_line, escape_for_csv}
use private_join_and_compute.Data.Files.{
  read_client_dataset_from_file, read_server_dataset_from_file, read_client_lines, client_item,
  client_value, lines, write_server_lines, close_written, write_server_dataset_to_file,
  write_client_lines, write_client_dataset_to_file,
}
use private_join_and_compute.Data.Random.{
  alpha_numeric_character, to_int64, add_int64, set_contains, get_random_alpha_numeric_string,
  random_identifiers, party_identifiers, all_identifiers, associated_value, associated_values,
  draw_databases, generate_random_databases,
}
use private_join_and_compute.Data.Random.Values.{common_count, common_sum}
use private_join_and_compute.Programs.{Line, out, Terminal, or_complain}
use private_join_and_compute.Programs.ExecuteProtocol.{
  Stub, ClientFlags, received, or_refused, output_result, decrypt_step, round_two_step,
  re_encrypt_step, start_step, keys_step, execute_protocol,
}
use private_join_and_compute.Programs.ExecuteProtocol.Success.{execute_protocol-zero, result_line}
use private_join_and_compute.Programs.GenerateDummyData.{
  report, write_client_step, write_server_step, generate_dummy_data,
}
use private_join_and_compute.Programs.GenerateDummyData.Written.{options, generate_dummy_data-zero}
use private_join_and_compute.Sample.Numbers.{to_bytes, search}
use private_join_and_compute.Sample.Library.{sample}
use private_join_and_compute.Sample.Group.{sample_laws, sample_curve}
use private_join_and_compute.Sample.Data.{
  group, flags, hash, client_cipher, server_cipher, client_keyed, server_keyed, inputs,
  sample-Hashes, group_created,
}
use private_join_and_compute.Sample.Pair.{pair, pair_made}
use private_join_and_compute.Sample.Run
use private_join_and_compute.Sample.Files.{
  NamedTexts, sample_absl, sample_absl_laws, sample_files, sample_files_laws, sample_entropy,
  sample_entropy_laws, decimal, read_decimal, sample_int_text, sample_atoi,
}

-- A terminal that prints every number as a mark.
instance abbrev sample_terminal : Terminal
sample_terminal = record { int_text = λ z. "#" }

abbrev response : ServerRoundTwo
response = record { intersection_size = pos 2; encrypted_sum = 93 ∷ 131 ∷ [] }

-- A network that counts its calls and answers as the server of the sample run does.
instance abbrev sample_stub : Stub
sample_stub = record {
  Net = ℕ;
  start_protocol = λ n. (received Run.first, n + 1);
  execute_server_round_two = λ request n. (received response, n + 1);
}

abbrev client_flags : ClientFlags
client_flags = record { client_data_file = "client.csv"; paillier_modulus_size = 6 }

abbrev disk : NamedTexts
disk =
    ("client.csv", b'"' ∷ 2 ∷ b'"' ∷ b',' ∷ b'7' ∷ 10 ∷ b'"' ∷ 3 ∷ b'"' ∷ b',' ∷ b'5' ∷ 10 ∷ [])
    ∷ []

abbrev elements : List Bytes
elements = (2 ∷ []) ∷ (3 ∷ []) ∷ []

abbrev values : List BigNum
values = pos 7 ∷ pos 5 ∷ []

items_read : read_client_dataset_from_file "client.csv" disk ≡ ok (elements, values)
unfolding read_client_dataset_from_file read_client_lines client_item client_value lines
    split_csv_line BigNum.of_u64 read_decimal sample_atoi
items_read = refl

abbrev new_client : Client sample
new_client = record {
  elements = elements;
  values = values;
  p = pos 7;
  q = pos 5;
  ec_cipher = client_cipher;
  private_paillier = none;
}

key_drawn : CommutativeCipher.create_with_new_key 713 4 ≡ (ok client_cipher, 5)
unfolding CommutativeCipher.create_with_new_key CommutativeCipher.make_cipher BigNum.mod_inverse
    search EcGroup.generate_private_key Context.generate_rand_between
    Context.generate_rand_less_than BigNum.of_u64 BigNum.lt BigNum.sub BigNum.add ◌+ℤ◌ ◌-ℤ◌
key_drawn = rw group_created refl

client_made : make_client elements values 6 2 ≡ (ok new_client, 5)
unfolding make_client Context.generate_safe_prime
client_made = rw key_drawn refl

abbrev request : ClientRoundOne
request = record {
  public_key = 35 ∷ [];
  encrypted_set =
      record { element = 23 ∷ []; associated_data = 167 ∷ 26 ∷ [] }
      ∷ record { element = 82 ∷ []; associated_data = 25 ∷ 7 ∷ [] }
      ∷ [];
  reencrypted_set =
      record { element = 11 ∷ []; associated_data = [] }
      ∷ record { element = 57 ∷ []; associated_data = [] }
      ∷ record { element = 69 ∷ []; associated_data = [] }
      ∷ [];
}

items_encrypted :
    encrypt_items 40 flags client_cipher pair elements values 5 ≡ (ok request.encrypted_set, 9)
unfolding encrypt_items to_bytes BigNum.to_bytes Private.encrypt CommutativeCipher.encrypt
items_encrypted =
    let (h1, h2, h3, h4) = sample-Hashes in
    rw (
      Run.element_encrypted 2 (23 ∷ []) h2 refl,
      Run.second_value,
      Run.element_encrypted 3 (82 ∷ []) h3 refl,
      Run.third_value,
    )

re_encrypted :
    re_encrypt_set 40 flags Run.first (new_client, 5)
    ≡ (ok request, (record new_client { private_paillier = some pair }, 9))
unfolding re_encrypt_set answer to_bytes BigNum.to_bytes BigNum.mul ◌*ℤ◌ BigNum.is_non_negative sort
    insert bytes_lt
re_encrypted =
    rw
      (
        pair_made,
        items_encrypted,
        Join.re_encrypt_items_lem group sample_curve 40 hash client_cipher server_cipher
            client_keyed server_keyed inputs Run.joinable.inputs_hashed,
      )
      refl

decrypted :
    decrypt_sum (record new_client { private_paillier = some pair }) response ≡ ok (pos 2, pos 16)
unfolding decrypt_sum
decrypted = Run.sum_decrypted

abbrev printed : List Line
printed =
    out "Client: Loading data..."
    ∷ out "Client: Generating keys..."
    ∷ out "Client: Starting the protocol."
    ∷ out "Client: Waiting for response and encrypted set from the server..."
    ∷ out "Client: Received encrypted set from the server, double encrypting..."
    ∷ out
        "Client: Sending double encrypted server data and single-encrypted client data to the server."
    ∷ out "Client: Waiting for encrypted intersection sum..."
    ∷ out "Client: Received response from the server. Decrypting the intersection-sum."
    ∷ out "Client: The intersection size is # and the intersection-sum is #"
    ∷ []

-- The whole run of the client's program.
client_run : execute_protocol 40 flags client_flags disk ([], (2, 0)) ≡ (ok 0, (printed, (9, 2)))
unfolding execute_protocol keys_step start_step re_encrypt_step round_two_step decrypt_step
    output_result or_complain or_refused BigNum.to_int_value
client_run = rw (items_read, client_made, re_encrypted, decrypted) refl

execute_protocol-zero_example :
    (items : List Bytes × List BigNum) × (client : Client sample) × (first : ServerRoundOne)
    × (message : ClientRoundOne) × (answer : ServerRoundTwo) × (size : ℤ) × (sum : BigNum)
    × (value : ℕ) × (read_client_dataset_from_file "client.csv" disk ≡ ok items)
    × ((make_client items.0 items.1 6 2).0 ≡ ok client)
    × (received Run.first ≡ received first)
    × ((re_encrypt_set 40 flags first (client, (make_client items.0 items.1 6 2).1)).0 ≡ ok message)
    × (received response ≡ received answer)
    × (decrypt_sum
          (re_encrypt_set 40 flags first (client, (make_client items.0 items.1 6 2).1)).1.0
          answer
        ≡ ok (size, sum))
    × (BigNum.to_int_value sum ≡ ok value)
    × (earlier : List Line) × (printed ≡ earlier ++ (result_line size value ∷ []))
execute_protocol-zero_example =
    execute_protocol-zero 40 flags client_flags disk [] 2 0 (printed, (9, 2)) client_run

abbrev written : NamedTexts
written =
    ("client.csv", codes "\"1234567890qwertyuiopasdfghjklzxc\",3\n")
    ∷ (
      "server.csv",
      codes "\"vbnmQWERTYUIOPASDFGHJKLZXCVBNM12\"\n\"1234567890qwertyuiopasdfghjklzxc\"\n",
    )
    ∷ []

abbrev reported : List Line
reported =
    out "Generated Server dataset of size #, Client dataset of size #"
    ∷ out "Intersection size = #"
    ∷ out "Intersection sum = #"
    ∷ []

data_generated :
    generate_dummy_data
      (options sample_laws sample_absl_laws sample_files_laws sample_entropy_laws 2 1 1 5
        "server.csv" "client.csv")
      ([], ([], (0, 3)))
    ≡ (ok 0, (reported, (written, (64, 4))))
unfolding generate_dummy_data write_server_step write_client_step report or_complain
    write_server_dataset_to_file write_server_lines close_written escape_for_csv
    write_client_dataset_to_file write_client_lines decimal sample_int_text
    generate_random_databases draw_databases all_identifiers party_identifiers random_identifiers
    get_random_alpha_numeric_string alpha_numeric_character associated_values associated_value
    to_int64 add_int64 set_contains bytes_lt mod_ℤ ◌+ℤ◌ BigNum.of_u64 BigNum.to_int_value
    Context.generate_rand_less_than
data_generated = refl

client_file_apart : ◌≢◌ {A = String} "client.csv" "server.csv"
client_file_apart same =
    let e : ("client.csv" == "server.csv") ≡ true = (eq_iff "client.csv" "server.csv").1 same in
    absurd (cc e)

generate_dummy_data-zero_example :
    (server client : List Bytes) × (vs : List ℕ) × ((generate_random_databases
        (pos 2)
        (pos 1)
        (pos 1)
        (pos 5)
        (0, 3)).0
      ≡ ok (server, (client, map pos vs), to_int64 (common_sum server client vs)))
    × (length server ≡ 2)
    × (length client ≡ 1)
    × All (λ v. v < 5) vs
    × (1 ≤ common_count server client)
    × (read_server_dataset_from_file "server.csv" written ≡ ok server)
    × (read_client_dataset_from_file "client.csv" written ≡ ok (client, map pos vs))
    × (earlier : List Line) × (reported ≡ earlier ++ (out "Intersection sum = #" ∷ []))
generate_dummy_data-zero_example =
    generate_dummy_data-zero sample_laws sample_absl_laws sample_files_laws sample_entropy_laws 2 1
      1 5 "server.csv" "client.csv" [] [] 0 3 (reported, (written, (64, 4))) (omega arith)
      (omega arith) (omega arith) client_file_apart data_generated
