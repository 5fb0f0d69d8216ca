-- ===== src/Sample/Datasets.antt =====
-- The theorems on data sets at concrete inputs.
use Prim.Native.String.{String}
use private_join_and_compute.Prelude.{
  ℕ, ◌+◌, ◌^◌, ◌<◌, ◌≤◌, ◌≡◌, refl, List, [], ◌∷◌, map, length, All, arith,
}
use private_join_and_compute.Prelude.Int.{pos, mod_ℤ, ◌+ℤ◌}
use private_join_and_compute.Prelude.Bytes.{Bytes, codes, bytes_lt}
use private_join_and_compute.Util.Status.{invalid_argument_error}
use private_join_and_compute.Util.Result.{ok, err, die}
use private_join_and_compute.Crypto.BigNum
use private_join_and_compute.Crypto.Context
use private_join_and_compute.Data.Csv.{
  escape_for_csv, split_csv_line, split_csv_line_with_delimiter,
}
use private_join_and_compute.Data.Csv.Columns.{split_csv_line_with_delimiter_ends}
use private_join_and_compute.Data.Csv.Row.{split_csv_line-escape_for_csv}
use private_join_and_compute.Data.Files.{
  write_server_lines, close_written, write_server_dataset_to_file, read_server_dataset_from_file,
  write_client_lines, write_client_dataset_to_file, read_client_dataset_from_file,
  read_server_lines, server_identifier, lines,
}
use private_join_and_compute.Data.Files.RoundTrip.{read_server_dataset_from_file-write}
use private_join_and_compute.Data.Files.ClientRoundTrip.{read_client_dataset_from_file-write}
use private_join_and_compute.Data.Files.LineEnds.{
  all_line_ends, length-read_server_dataset_from_file,
}
use private_join_and_compute.Data.Random.{
  alpha_numeric_character, to_int64, add_int64, set_contains, get_random_alpha_numeric_string,
  random_identifiers, party_identifiers, all_identifiers, associated_value, associated_values,
  draw_databases, generate_random_databases,
}
use private_join_and_compute.Data.Random.Letters.{IsWord}
use private_join_and_compute.Data.Random.Values.{common_sum, common_count}
use private_join_and_compute.Data.Random.Accepted.{generate_random_databases_lem}
use private_join_and_compute.Data.Random.Rejected.{
  AreAccepted, generate_random_databases-AreAccepted,
}
use private_join_and_compute.Data.Random.Exact.{
  generate_random_databases-exact, generate_random_databases-zero,
}
use private_join_and_compute.Sample.Library.{sample}
use private_join_and_compute.Sample.Group.{sample_laws}
use private_join_and_compute.Sample.Files.{
  NamedTexts, sample_absl, sample_absl_laws, sample_files, sample_files_laws, sample_entropy,
  sample_entropy_laws, decimal, sample_int_text,
}

-- A comma, a quote and a line end in the identifiers.
split_csv_line-escape_for_csv_example :
    split_csv_line (codes "\"a,b\",\"\"\"\",\" \n\"")
    ≡ ok (codes "a,b" ∷ codes "\"" ∷ codes " \n" ∷ [])
unfolding escape_for_csv
split_csv_line-escape_for_csv_example =
    split_csv_line-escape_for_csv sample_absl_laws (codes "a,b") (codes "\"" ∷ codes " \n" ∷ [])
      (omega arith)

split_csv_line_with_delimiter_ends_example :
    (columns : List Bytes) × (split_csv_line_with_delimiter 9 b',' (codes "a, \"b") ≡ ok columns)
    × (split_csv_line_with_delimiter 5 b',' (codes "a, \"b") ≡ ok columns)
split_csv_line_with_delimiter_ends_example =
    split_csv_line_with_delimiter_ends 9 b',' (codes "a, \"b") (omega arith)

abbrev server_file : NamedTexts
server_file = ("server.csv", codes "\"a,b\"\n\"c\"\n") ∷ []

server_written :
    write_server_dataset_to_file (codes "a,b" ∷ codes "c" ∷ []) "server.csv" []
    ≡ (ok tt, server_file)
unfolding write_server_dataset_to_file write_server_lines close_written escape_for_csv
server_written = refl

read_server_dataset_from_file-write_example :
    read_server_dataset_from_file "server.csv" server_file ≡ ok (codes "a,b" ∷ codes "c" ∷ [])
read_server_dataset_from_file-write_example =
    read_server_dataset_from_file-write sample_absl_laws sample_files_laws
      (codes "a,b" ∷ codes "c" ∷ []) "server.csv" [] server_file (omega arith) (omega arith)
      server_written

abbrev client_file : NamedTexts
client_file = ("client.csv", codes "\"a\"\"\",12\n\"c\",0\n") ∷ []

client_written :
    write_client_dataset_to_file
      (codes "a\"" ∷ codes "c" ∷ [])
      (pos 12 ∷ pos 0 ∷ [])
      "client.csv"
      []
    ≡ (ok tt, client_file)
unfolding write_client_dataset_to_file write_client_lines close_written escape_for_csv decimal
    sample_int_text
client_written = refl

read_client_dataset_from_file-write_example :
    read_client_dataset_from_file "client.csv" client_file
    ≡ ok (codes "a\"" ∷ codes "c" ∷ [], pos 12 ∷ pos 0 ∷ [])
read_client_dataset_from_file-write_example =
    read_client_dataset_from_file-write sample_laws sample_absl_laws sample_files_laws
      (codes "a\"" ∷ codes "c" ∷ []) (12 ∷ 0 ∷ []) "client.csv" [] client_file (omega arith)
      (omega arith) (omega arith) client_written

abbrev broken_file : NamedTexts
broken_file = ("server.csv", codes "\"a\nb\"\n") ∷ []

broken_written :
    write_server_dataset_to_file (codes "a\nb" ∷ []) "server.csv" [] ≡ (ok tt, broken_file)
unfolding write_server_dataset_to_file write_server_lines close_written escape_for_csv
broken_written = refl

broken_read :
    read_server_dataset_from_file "server.csv" broken_file ≡ ok (codes "a" ∷ codes "b\"" ∷ [])
unfolding read_server_dataset_from_file read_server_lines server_identifier lines split_csv_line
broken_read = refl

-- One identifier with a line end in it is read back as two.
length-read_server_dataset_from_file_example :
    length (codes "a" ∷ codes "b\"" ∷ [])
    ≡ length (codes "a\nb" ∷ []) + all_line_ends (codes "a\nb" ∷ [])
length-read_server_dataset_from_file_example =
    length-read_server_dataset_from_file sample_absl_laws sample_files_laws (codes "a\nb" ∷ [])
      (codes "a" ∷ codes "b\"" ∷ []) "server.csv" [] broken_file broken_written broken_read

sizes_refused : ¬ AreAccepted (pos 3) (pos 1) (pos 2) (pos 5)
sizes_refused h = let (_, le, _) = h in omega (arith, le)

generate_random_databases-AreAccepted_example :
    (message : String) × (generate_random_databases (pos 3) (pos 1) (pos 2) (pos 5) (0, 3)
      ≡ (err (invalid_argument_error message), (0, 3)))
generate_random_databases-AreAccepted_example =
    generate_random_databases-AreAccepted (pos 3) (pos 1) (pos 2) (pos 5) (0, 3) sizes_refused

generate_random_databases_lem_example :
    (server client : List Bytes) × (vs : List ℕ) × (s : ℕ) × (g : ℕ) × (generate_random_databases
        (pos 2)
        (pos 1)
        (pos 1)
        (pos 5)
        (0, 3)
      ≡ (ok (server, (client, map pos vs), to_int64 (common_sum server client vs)), (s, g)))
    × (length server ≡ 2)
    × (length client ≡ 1)
    × (length vs ≡ 1)
    × All (λ v. v < 5) vs
    × (1 ≤ common_count server client)
    × All IsWord server
    × All IsWord client
generate_random_databases_lem_example =
    generate_random_databases_lem sample_laws sample_entropy_laws 2 1 1 5 0 3 (omega arith)
      (omega arith) (omega arith)

abbrev shared : Bytes
shared = codes "1234567890qwertyuiopasdfghjklzxc"

abbrev own : Bytes
own = codes "vbnmQWERTYUIOPASDFGHJKLZXCVBNM12"

databases_drawn :
    generate_random_databases (pos 2) (pos 1) (pos 1) (pos 5) (0, 3)
    ≡ (ok (own ∷ shared ∷ [], (shared ∷ [], pos 3 ∷ []), pos 3), (64, 4))
unfolding generate_random_databases draw_databases all_identifiers party_identifiers
    random_identifiers get_random_alpha_numeric_string alpha_numeric_character associated_values
    associated_value to_int64 add_int64 set_contains bytes_lt mod_ℤ ◌+ℤ◌ BigNum.of_u64
    BigNum.to_int_value Context.generate_rand_less_than
databases_drawn = refl

one_shared : common_count (own ∷ shared ∷ []) (shared ∷ []) ≡ 1
unfolding set_contains bytes_lt
one_shared = refl

generate_random_databases-exact_example :
    (vs : List ℕ) × (pos 3 ∷ [] ≡ map pos vs)
    × (pos 3 ≡ pos (common_sum (own ∷ shared ∷ []) (shared ∷ []) vs))
    × (common_sum (own ∷ shared ∷ []) (shared ∷ []) vs < 2 ^ 63)
generate_random_databases-exact_example =
    generate_random_databases-exact sample_laws sample_entropy_laws 2 1 1 5 (0, 3) (64, 4)
      (own ∷ shared ∷ []) (shared ∷ []) (pos 3 ∷ []) (pos 3) (omega arith) (omega arith)
      (omega arith) databases_drawn one_shared

generate_random_databases-zero_example :
    (generate_random_databases (pos 2) (pos 1) (pos 1) (pos 0) (0, 3)).0 ≡ die
generate_random_databases-zero_example =
    generate_random_databases-zero sample_laws sample_entropy_laws (λ g. refl) 2 0 1 (0, 3)
      (omega arith) (omega arith)
