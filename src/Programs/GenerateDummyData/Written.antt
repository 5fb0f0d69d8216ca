-- ===== src/Programs/GenerateDummyData/Written.antt =====
-- What a successful run of generate_dummy_data leaves behind.
use Prim.Native.String.{String, ◌++◌ as append}
use private_join_and_compute.Prelude.{
  ℕ, ◌^◌, ◌<◌, ◌≤◌, ◌≡◌, ◌≢◌, ◌∙◌, sym, ap, List, [], ◌∷◌, ◌++◌, map, length, All, arith,
}
use private_join_and_compute.Prelude.Int.{pos}
use private_join_and_compute.Prelude.Bytes.{Bytes}
use private_join_and_compute.Util.Result.{Result, ok}
use private_join_and_compute.Crypto.OpenSsl.{OpenSsl}
use private_join_and_compute.Crypto.OpenSsl.Laws.{BnLaws}
use private_join_and_compute.Data.Absl.{Absl, AbslLaws}
use private_join_and_compute.Data.Files.{
  Files, FilesLaws, write_server_dataset_to_file, write_client_dataset_to_file,
  read_client_dataset_from_file, read_server_dataset_from_file,
}
use private_join_and_compute.Data.Files.ClientRoundTrip.{
  read_client_dataset_from_file-write, read_server_dataset_from_file-write_client,
}
use private_join_and_compute.Data.Files.RoundTrip.{read_server_dataset_from_file-write}
use private_join_and_compute.Data.Random.{Entropy, to_int64, generate_random_databases}
use private_join_and_compute.Data.Random.Identifiers.{EntropyLaws}
use private_join_and_compute.Data.Random.Letters.{words-All}
use private_join_and_compute.Data.Random.Accepted.{IsAccepted, generate_random_databases_lem}
use private_join_and_compute.Data.Random.Values.{common_sum, common_count}
use private_join_and_compute.Programs.{Line, out, Terminal, or_complain-zero}
use private_join_and_compute.Programs.GenerateDummyData.{
  DummyFlags, report, write_client_step, write_server_step, generate_dummy_data,
}

small_values : (m : ℕ) (vs : List ℕ) → m < 2 ^ 63 → All (λ v. v < m) vs → All (λ v. v < 2 ^ 63) vs
small_values m [] h a = tt
small_values m (v ∷ vs) h (b, a) = (omega (arith, h, b), small_values m vs h a)

pair-eq : {S : Type 0} {A : Type 0} (p : Result A × S) {a : A} → p.0 ≡ ok a → p ≡ (ok a, p.1)
pair-eq (r, s) h = ap (λ x. (x, s)) h

module _ ⦃lib : OpenSsl⦄ ⦃absl : Absl⦄ ⦃files : Files⦄ ⦃entropy : Entropy⦄ ⦃terminal : Terminal⦄
    (bn : BnLaws lib) (laws : AbslLaws) (disk_laws : FilesLaws) (source_laws : EntropyLaws)
    (server_data_size client_data_size intersection_size max_value : ℕ)
    (server_data_file client_data_file : String) where
  abbrev pub options : DummyFlags
  options = record {
    server_data_size = pos server_data_size;
    client_data_size = pos client_data_size;
    intersection_size = pos intersection_size;
    max_associated_value = pos max_value;
    server_data_file = server_data_file;
    client_data_file = client_data_file;
  }

  -- Where the sizes are accepted, the bound on the values is above 0 and the two files have different
  -- names, a run that ends with 0 leaves the data sets that were drawn in the two files: the server's
  -- program reads from its file the server's identifiers, and the client's program from its file the
  -- client's, as many as were asked for, with the values, each below the bound. At least as many of the
  -- client's identifiers as the intersection has are among the server's, and the sum that is printed
  -- last is that of the values beside those, as an int64_t.
  pub generate_dummy_data-zero :
      (console : List Line) (disk : files.Disk) (s : entropy.Source) (g : lib.Rng)
      (s' : List Line × (files.Disk × (entropy.Source × lib.Rng)))
      → IsAccepted server_data_size client_data_size intersection_size max_value
      → 0 < max_value
      → max_value < 2 ^ 63
      → client_data_file ≢ server_data_file
      → generate_dummy_data options (console, (disk, (s, g))) ≡ (ok 0, s')
      → (server client : List Bytes) × (vs : List ℕ) × ((generate_random_databases
            (pos server_data_size)
            (pos client_data_size)
            (pos intersection_size)
            (pos max_value)
            (s, g)).0
          ≡ ok (server, (client, map pos vs), to_int64 (common_sum server client vs)))
        × (length server ≡ server_data_size)
        × (length client ≡ client_data_size)
        × All (λ v. v < max_value) vs
        × (intersection_size ≤ common_count server client)
        × (read_server_dataset_from_file server_data_file s'.1.0 ≡ ok server)
        × (read_client_dataset_from_file client_data_file s'.1.0 ≡ ok (client, map pos vs))
        × (earlier : List Line) × (s'.0
            ≡ earlier
              ++ (out (
                    append "Intersection sum = "
                      (terminal.int_text (to_int64 (common_sum server client vs))))
                  ∷ []))
  unfolding generate_dummy_data write_server_step write_client_step report
  generate_dummy_data-zero console disk s g s' accepted positive small apart h =
      let (
        server, client, vs, s₁, g₁, made, len_server, len, len_vs, below, common, words, words',
      ) =
        generate_random_databases_lem bn source_laws server_data_size client_data_size
          intersection_size max_value s g accepted positive small in
      let (_, server_written, h₁) =
        or_complain-zero (write_server_dataset_to_file server server_data_file disk).0 _ _ _ s'
          (rw made at h) in
      let disk₁ = (write_server_dataset_to_file server server_data_file disk).1 in
      let (_, client_written, h₂) =
        or_complain-zero (write_client_dataset_to_file client (map pos vs) client_data_file disk₁).0
          _ _ _ s' h₁ in
      let written = write_client_dataset_to_file client (map pos vs) client_data_file disk₁ in
      let read =
        read_client_dataset_from_file-write bn laws disk_laws client vs client_data_file disk₁
          (written.1) (words-All (λ c. c ≢ 0) (λ c b. omega (arith, b)) client words')
          (words-All (λ c. c ≢ b'\n') (λ c b. omega (arith, b)) client words')
          (small_values max_value vs small below) (pair-eq written client_written) in
      let read_server =
        read_server_dataset_from_file-write_client disk_laws client vs client_data_file
          server_data_file disk₁ (written.1) apart (pair-eq written client_written)
        ∙ read_server_dataset_from_file-write laws disk_laws server server_data_file disk disk₁
            (words-All (λ c. c ≢ 0) (λ c b. omega (arith, b)) server words)
            (words-All (λ c. c ≢ b'\n') (λ c b. omega (arith, b)) server words)
            (pair-eq (write_server_dataset_to_file server server_data_file disk) server_written) in
      (
        server,
        client,
        vs,
        ap (λ r. r.0) made,
        len_server,
        len,
        below,
        common,
        rw (← ap (λ r. r.1.1.0) h₂) read_server,
        rw (← ap (λ r. r.1.1.0) h₂) read,
        _,
        sym (ap (λ r. r.1.0) h₂),
      )
