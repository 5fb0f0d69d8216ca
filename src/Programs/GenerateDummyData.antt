-- ===== src/Programs/GenerateDummyData.antt =====
-- main (generate_dummy_data.cc): two random data sets, written to their files.
pub mod Written
use Prim.Native.String.{String, ◌++◌ as append}
use private_join_and_compute.Prelude.{ℕ, List, ◌++◌}
use private_join_and_compute.Prelude.Int.{ℤ}
use private_join_and_compute.Prelude.Bytes.{Bytes}
use private_join_and_compute.Util.Exec.{Exec, pure, ◌>>=◌, ◌>>◌}
use private_join_and_compute.Crypto.OpenSsl.{OpenSsl}
use private_join_and_compute.Data.Absl.{Absl}
use private_join_and_compute.Data.Files.{
  Files, write_server_dataset_to_file, write_client_dataset_to_file,
}
use private_join_and_compute.Data.Random.{Entropy, Databases, generate_random_databases}
use private_join_and_compute.Programs.{Line, Terminal, say, or_complain}

pub record DummyFlags : Type 0 where
  pub server_data_size : ℤ
  pub client_data_size : ℤ
  pub intersection_size : ℤ
  pub max_associated_value : ℤ
  pub server_data_file : String
  pub client_data_file : String

module _ ⦃lib : OpenSsl⦄ ⦃absl : Absl⦄ ⦃files : Files⦄ ⦃entropy : Entropy⦄ ⦃terminal : Terminal⦄
    (options : DummyFlags) where
  abbrev pub Main : Type 0
  Main = Exec (List Line × (files.Disk × (entropy.Source × lib.Rng))) ℕ

  -- The three lines of a successful run; the size of the server's set is printed from the client's flag.
  unfoldable pub report : ℤ → Main
  report sum = do
    say (
        append "Generated Server dataset of size " (
          append (terminal.int_text options.client_data_size)
            (append ", Client dataset of size " (terminal.int_text options.client_data_size))))
    say (append "Intersection size = " (terminal.int_text options.intersection_size))
    say (append "Intersection sum = " (terminal.int_text sum))
    pure 0

  unfoldable pub write_client_step : List Bytes → List ℤ → ℤ → Main
  unfolding report or_complain
  write_client_step identifiers values sum (console, (disk, state)) =
      let (r, disk') =
        write_client_dataset_to_file identifiers values options.client_data_file disk in
      or_complain r "GenerateDummyData: Error writing client dataset: " (λ _. report sum)
        (console, (disk', state))

  unfoldable pub write_server_step : Databases → Main
  unfolding write_client_step or_complain
  write_server_step (server, (client, values), sum) (console, (disk, state)) =
      let (r, disk') = write_server_dataset_to_file server options.server_data_file disk in
      or_complain r "GenerateDummyData: Error writing server dataset: "
        (λ _. write_client_step client values sum) (console, (disk', state))

  unfoldable pub generate_dummy_data : Main
  unfolding write_server_step or_complain
  generate_dummy_data (console, (disk, state)) =
      let (r, state') =
        generate_random_databases options.server_data_size options.client_data_size
          options.intersection_size options.max_associated_value state in
      or_complain r "GenerateDummyData: Error generating the dummy data: " write_server_step
        (console, (disk, state'))
