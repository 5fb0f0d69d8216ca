-- ===== src/Rpc/Session.antt =====
-- The life of the service: what it does with the requests that come in a row.
use private_join_and_compute.Prelude.Bytes.{Bytes}
use private_join_and_compute.Prelude.{
  List, [], ◌∷◌, ℕ, ◌≡◌, refl, sym, ap, true, false, none, some, Option,
}
use private_join_and_compute.Util.Result.{ok}
use private_join_and_compute.Util.Exec.{Exec, pure, ◌>>◌}
use private_join_and_compute.Crypto.OpenSsl.{OpenSsl}
use private_join_and_compute.Crypto.Flags.{Flags}
use private_join_and_compute.Crypto.CommutativeCipher.{CommutativeCipher}
use private_join_and_compute.Match.{ClientRoundOne, ServerRoundTwo}
use private_join_and_compute.Server.{Server, encrypt_set, compute_intersection}
use private_join_and_compute.Rpc.{
  Service, Request, starting, second_round, start_protocol, execute_server_round_two,
  answer_request, finished, reply,
}

module _ ⦃lib : OpenSsl⦄ (fuel : ℕ) (flags : Flags) where
  abbrev pub State : Type 0
  State = Service lib × lib.Rng

  -- Requests that the service answers one after the other.
  unfoldable pub answer_all : List Request → Exec State (Unit {0})
  answer_all [] = pure tt
  answer_all (request ∷ requests) = answer_request fuel flags request >> answer_all requests

  -- The service that has computed the intersection.
  abbrev pub closed : Server lib → Service lib
  closed server = record { server = server; protocol_finished = true }

  -- An intersection is computed only by a server with a key, and leaves the server as it was.
  pub compute_intersection_ok :
      (request : ClientRoundOne) (server server' : Server lib) (g g' : lib.Rng)
      (response : ServerRoundTwo)
      → compute_intersection fuel flags request (server, g) ≡ (ok response, (server', g'))
      → (cipher : CommutativeCipher lib) × (server.ec_cipher ≡ some cipher) × (server' ≡ server)
  unfolding compute_intersection
  compute_intersection_ok request server server' g g' response h =
      split server.ec_cipher server.inputs h
    where
      split :
          (c : Option (CommutativeCipher lib)) (inputs : List Bytes)
          → compute_intersection fuel flags request (record { ec_cipher = c; inputs = inputs }, g)
            ≡ (ok response, (server', g'))
          → (cipher : CommutativeCipher lib) × (c ≡ some cipher)
            × (server' ≡ record { ec_cipher = c; inputs = inputs })
      split none inputs h = absurd (cc)
      split (some cipher) inputs h = (cipher, refl, sym (ap (λ r. r.1.0) h))

  -- A service that has finished, of a server with a key, answers every request without a change.
  pub answer_request-finished :
      (request : Request) (cipher : CommutativeCipher lib) (server : Server lib) (g : lib.Rng)
      → server.ec_cipher ≡ some cipher
      → answer_request fuel flags request (closed server, g) ≡ (ok tt, (closed server, g))
  unfolding answer_request start_protocol execute_server_round_two encrypt_set reply
  answer_request-finished starting cipher server g h = rw h refl
  answer_request-finished (second_round request) cipher server g h = refl

  answer_all-finished :
      (requests : List Request) (cipher : CommutativeCipher lib) (server : Server lib) (g : lib.Rng)
      → server.ec_cipher ≡ some cipher
      → answer_all requests (closed server, g) ≡ (ok tt, (closed server, g))
  unfolding answer_all
  answer_all-finished [] cipher server g h = refl
  answer_all-finished (request ∷ requests) cipher server g h =
      rw (answer_request-finished request cipher server g h)
        (answer_all-finished requests cipher server g h)

  pub answer_request-second_round :
      (request : ClientRoundOne) (service : Service lib) (server : Server lib) (g g' : lib.Rng)
      (response : ServerRoundTwo)
      → service.protocol_finished ≡ false
      → compute_intersection fuel flags request (service.server, g) ≡ (ok response, (server, g'))
      → answer_request fuel flags (second_round request) (service, g) ≡ (ok tt, (closed server, g'))
  unfolding answer_request execute_server_round_two finished reply
  answer_request-second_round request service server g g' response open_yet computed =
      rw (computed, open_yet) refl

  -- Where the protocol is not finished and the intersection is computed for a request, that request is
  -- the last that changes anything: whatever requests follow, for either round and in any order, the
  -- process lives, the service stays finished, the server is the one of before the request, and the
  -- generator is as the computation left it.
  pub answer_all-once :
      (request : ClientRoundOne) (requests : List Request) (service : Service lib)
      (server : Server lib) (g g' : lib.Rng) (response : ServerRoundTwo)
      → service.protocol_finished ≡ false
      → compute_intersection fuel flags request (service.server, g) ≡ (ok response, (server, g'))
      → answer_all (second_round request ∷ requests) (service, g)
        ≡ (ok tt, (closed service.server, g'))
  unfolding answer_all
  answer_all-once request requests service server g g' response open_yet computed =
      let (cipher, has_key, same) =
        compute_intersection_ok request service.server server g g' response computed in
      rw (answer_request-second_round request service server g g' response open_yet computed, same)
        (answer_all-finished requests cipher service.server g' has_key)
