-- ===== src/Rpc.antt =====
-- private_join_and_compute_rpc_impl.h and private_join_and_compute_rpc_impl.cc: the service that
-- answers the two calls of a client.
pub mod Session
use Prim.Native.String.{String}
use private_join_and_compute.Prelude.{ℕ, Bool, true, false, Option, none, some, if◌then◌else◌}
use private_join_and_compute.Util.Status.{Status, is_ok, is_invalid_argument, is_internal}
use private_join_and_compute.Util.Result.{Result, ok, err, die, running}
use private_join_and_compute.Util.Exec.{Exec, pure, ◌>>=◌, ◌>>◌}
use private_join_and_compute.Crypto.OpenSsl.{OpenSsl}
use private_join_and_compute.Crypto.Flags.{Flags}
use private_join_and_compute.Match.{ServerRoundOne, ClientRoundOne, ServerRoundTwo}
use private_join_and_compute.Server.{Server, encrypt_set, compute_intersection}

-- The values of grpc::StatusCode that the service returns.
pub data GrpcCode : Type 0 where
  grpc_ok grpc_invalid_argument grpc_internal grpc_unknown : GrpcCode

pub record GrpcStatus : Type 0 where
  pub code : GrpcCode
  pub message : String

-- A request on the port.
pub data Request : Type 0 where
  starting : Request
  second_round : ClientRoundOne → Request

pub record Service (lib : OpenSsl) : Type 0 where
  pub server : Server lib
  pub protocol_finished : Bool

unfoldable pub convert_status : Status → GrpcStatus
convert_status status =
    if is_ok status
    then record { code = grpc_ok; message = "" }
    else if is_invalid_argument status
    then record { code = grpc_invalid_argument; message = status.message }
    else if is_internal status
    then record { code = grpc_internal; message = status.message }
    else record { code = grpc_unknown; message = status.message }

abbrev pub ok_reply : GrpcStatus
ok_reply = record { code = grpc_ok; message = "" }

-- The status of a call, and the response where one was written.
abbrev pub Reply {ℓ} : Type ℓ → Type ℓ
Reply A = GrpcStatus × Option A

unfoldable pub reply {ℓ} : {A : Type ℓ} → Result A → Result (Reply A)
reply (ok response) = ok (ok_reply, some response)
reply (err status) = ok (convert_status status, none)
reply die = die
reply running = running

module _ ⦃lib : OpenSsl⦄ where
  open lib use {Rng}

  -- PrivateJoinAndComputeRpcImpl(server)
  unfoldable pub make_service : Server lib → Service lib
  make_service server = record { server = server; protocol_finished = false }

  unfoldable pub start_protocol : ℕ → Exec (Service lib × Rng) (Reply ServerRoundOne)
  start_protocol fuel (service, g) =
      let (r, after) = encrypt_set fuel (service.server, g) in
      (reply r, (record service { server = after.0 }, after.1))

  -- `protocol_finished_ = true` where the call succeeded.
  unfoldable pub finished {ℓ} : {A : Type ℓ} → Result A → Bool
  finished (ok response) = true
  finished _ = false

  unfoldable pub execute_server_round_two :
      ℕ → Flags → ClientRoundOne → Exec (Service lib × Rng) (Reply ServerRoundTwo)
  execute_server_round_two fuel flags request (service, g) =
      let (r, after) = compute_intersection fuel flags request (service.server, g) in
      if service.protocol_finished
      then (
        ok (
          record {
            code = grpc_invalid_argument;
            message = "PrivateJoinAndComputeRpcImpl: Protocol is already finished.";
          },
          none,
        ),
        (service, g),
      )
      else (reply r, (record { server = after.0; protocol_finished = finished r }, after.1))

  -- The call that gRPC makes of the service for a request; the reply goes to the network.
  unfoldable pub answer_request : ℕ → Flags → Request → Exec (Service lib × Rng) (Unit {0})
  answer_request fuel flags starting = start_protocol fuel >> pure tt
  answer_request fuel flags (second_round request) =
      execute_server_round_two fuel flags request >> pure tt
