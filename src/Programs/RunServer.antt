-- ===== src/Programs/RunServer.antt =====
-- RunServer (server.cc): threads of gRPC answer the requests that arrive, while the main thread reads
-- the service's flag until it sees that the protocol has finished, and then shuts the server down.
-- Requests are answered one at a time; two that gRPC runs at once are not modelled.
pub mod Requests
pub mod Seen
use Prim.Native.String.{String, ◌++◌ as append}
use private_join_and_compute.Prelude.{ℕ, Bool, true, false, ◌&&◌, List, [], ◌∷◌}
use private_join_and_compute.Util.Result.{Result, ok, err, die, running}
use private_join_and_compute.Util.Exec.{Exec, pure, ◌>>=◌, ◌>>◌}
use private_join_and_compute.Crypto.OpenSsl.{OpenSsl}
use private_join_and_compute.Crypto.Flags.{Flags}
use private_join_and_compute.Match.{ClientRoundOne}
use private_join_and_compute.Server.{make_server}
use private_join_and_compute.Rpc.{Service, Request, make_service, answer_request}
use private_join_and_compute.Data.Absl.{Absl}
use private_join_and_compute.Data.Files.{Files, read_server_dataset_from_file}
use private_join_and_compute.Programs.{Line, say, complain, or_complain}

-- What happens while the main thread waits: a thread of gRPC answers a request, or the main thread reads
-- `protocol_finished_` once more. The flag is a plain bool, so that a read may miss a write of another
-- thread: the event tells whether this one sees what was written before it.
pub data Event : Type 0 where
  answer : Request → Event
  poll : Bool → Event

-- --port and --server_data_file
pub record ServerFlags : Type 0 where
  pub port : String
  pub server_data_file : String

module _ ⦃lib : OpenSsl⦄ (fuel : ℕ) (flags : Flags) where
  -- `while (!service.protocol_finished()) {}`, beside the thread that answers; where the events end
  -- before the loop, the program is still in it.
  unfoldable pub serve : List Event → Exec (Service lib × lib.Rng) (Unit {0})
  serve [] s = (running, s)
  serve (answer request ∷ events) s = (answer_request fuel flags request >> serve events) s
  serve (poll sees ∷ events) s = elim (s.0.protocol_finished && sees) [
    | true ↦ (ok tt, s)
    | false ↦ serve events s
  ]

  module _ ⦃absl : Absl⦄ ⦃files : Files⦄ where
    unfoldable pub serve_inputs :
        ServerFlags → List Event → List (List ℕ) → Exec (List Line × lib.Rng) ℕ
    unfolding serve
    serve_inputs options events inputs (console, g) =
        let (r, (service, g')) = serve events (make_service (make_server inputs), g) in
        (do
          say (append "Server: listening on " options.port)
          (λ s. (r, s))
          say "Server completed protocol and shut down."
          pure 0)
          (console, g')

    unfoldable pub run_server : ServerFlags → files.Disk → List Event → Exec (List Line × lib.Rng) ℕ
    unfolding serve_inputs or_complain
    run_server options disk events = do
      say "Server: loading data... "
      or_complain (read_server_dataset_from_file options.server_data_file disk) "RunServer: failed "
          (serve_inputs options events)
