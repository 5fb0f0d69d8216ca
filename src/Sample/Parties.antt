-- ===== src/Sample/Parties.antt =====
-- Runs of the two parties and of the service on the sample library.
use private_join_and_compute.Prelude.{◌≡◌, refl, true, false, none, some, [], ◌∷◌, arith}
use private_join_and_compute.Prelude.Int.{pos}
use private_join_and_compute.Prelude.Bytes.{bytes_lt}
use private_join_and_compute.Util.Status.{invalid_argument_error}
use private_join_and_compute.Util.Result.{Result, ok, err, die, ◌>>=◌}
use private_join_and_compute.Crypto.BigNum
use private_join_and_compute.Crypto.CommutativeCipher
use private_join_and_compute.Crypto.Flags.{Flags}
use private_join_and_compute.Crypto.Paillier.Private
use private_join_and_compute.Crypto.Paillier.Private.{PrivatePaillier}
use private_join_and_compute.Crypto.CommutativeCipher.{CommutativeCipher}
use private_join_and_compute.Crypto.CommutativeCipher.Keys.{create_from_key-get_private_key_bytes}
use private_join_and_compute.Match.{ClientRoundOne, ServerRoundTwo}
use private_join_and_compute.Std.{sort, insert}
use private_join_and_compute.Std.Order.{has, bytes_eq, keep, product}
use private_join_and_compute.Protocol.Join.{common}
use private_join_and_compute.Protocol.Sum.{compute_with_cipher-common}
use private_join_and_compute.Server
use private_join_and_compute.Server.{Server, encrypt_set, compute_intersection, encrypt_inputs}
use private_join_and_compute.Server.Phases.{
  encrypt_set-twice, restore_server-get_serialized_state, round_one,
}
use private_join_and_compute.Client
use private_join_and_compute.Client.{Client, re_encrypt_set}
use private_join_and_compute.Client.Phases.{
  restore_client-ndebug, restore_client-get_serialized_state,
}
use private_join_and_compute.Rpc.{starting, second_round}
use private_join_and_compute.Rpc.Session.{answer_all, answer_all-once}
use private_join_and_compute.Sample.Numbers.{to_bytes, search}
use private_join_and_compute.Sample.Library.{sample}
use private_join_and_compute.Sample.Group.{sample_laws, sample_curve}
use private_join_and_compute.Sample.Proto.{sample_proto, sample_proto_laws}
use private_join_and_compute.Sample.Data.{
  group, client_cipher, server_cipher, flags, hash, client_keyed, server_keyed, key, key_made,
  zero_encrypted, items, inputs, joinable, drawn, group_created, cipher_made,
}
use private_join_and_compute.Prelude.{ℕ, ◌⊎◌}
use private_join_and_compute.Util.StatusOr.{from_status, copy, returned}
use private_join_and_compute.Util.StatusOr.Laws.{copy-returned}
use private_join_and_compute.Util.Status.{Status}

abbrev pub waiting : Server sample
waiting = record { ec_cipher = some server_cipher; inputs = inputs }

pub server_drawn : CommutativeCipher.create_with_new_key 713 6 ≡ (ok server_cipher, 7)
unfolding CommutativeCipher.create_with_new_key CommutativeCipher.make_cipher BigNum.mod_inverse
    search
server_drawn = rw (group_created, drawn)

server_made : CommutativeCipher.make_cipher group (pos 7) ≡ ok server_cipher
unfolding CommutativeCipher.make_cipher BigNum.mod_inverse search
server_made = refl

encrypt_set-twice_example :
    (encrypt_set 40 (record { ec_cipher = none; inputs = inputs }, 6) ≡ (
      (encrypt_inputs 40 server_cipher inputs >>= λ encrypted_set. ok (round_one encrypted_set)),
      (waiting, 7),
    ))
    × (encrypt_set 3 (waiting, 7)
        ≡ (err (invalid_argument_error "Attempted to call EncryptSet twice."), (waiting, 7)))
encrypt_set-twice_example = encrypt_set-twice 40 3 inputs server_cipher 6 7 server_drawn

abbrev pub request : ClientRoundOne
request = record {
  public_key = 15 ∷ [];
  encrypted_set =
      record { element = 16 ∷ []; associated_data = 11 ∷ [] }
      ∷ record { element = 23 ∷ []; associated_data = 7 ∷ [] }
      ∷ record { element = 82 ∷ []; associated_data = 5 ∷ [] }
      ∷ [];
  reencrypted_set =
      record { element = 11 ∷ []; associated_data = [] }
      ∷ record { element = 57 ∷ []; associated_data = [] }
      ∷ record { element = 69 ∷ []; associated_data = [] }
      ∷ [];
}

abbrev pub response : ServerRoundTwo
response = record { intersection_size = pos 2; encrypted_sum = 5 ∷ 150 ∷ [] }

pub answered : compute_intersection 40 flags request (waiting, 2) ≡ (ok response, (waiting, 4))
unfolding compute_intersection to_bytes common keep has bytes_eq product sort insert bytes_lt
answered = rw (
    compute_with_cipher-common sample_laws group sample_curve 40 hash client_cipher server_cipher
      client_keyed server_keyed items inputs joinable flags 15 1376 3375 key 2 3 4 key_made
      zero_encrypted refl (omega arith))

answer_all-once_example :
    answer_all 40 flags
      (second_round request ∷ starting ∷ second_round request ∷ [])
      (record { server = waiting; protocol_finished = false }, 2)
    ≡ (ok tt, (record { server = waiting; protocol_finished = true }, 4))
answer_all-once_example =
    answer_all-once 40 flags request (starting ∷ second_round request ∷ [])
      (record { server = waiting; protocol_finished = false }) waiting 2 4 response refl answered

server_stored :
    (CommutativeCipher.get_private_key_bytes server_cipher
      >>= CommutativeCipher.create_from_key 713)
    ≡ ok server_cipher
server_stored =
    create_from_key-get_private_key_bytes sample_laws group 101 refl 713 7 server_cipher
      group_created (omega arith) (omega arith) server_made

restore_server-get_serialized_state_example :
    (Server.get_serialized_state waiting >>= Server.restore_server)
    ≡ ok (record { ec_cipher = some server_cipher; inputs = [] })
restore_server-get_serialized_state_example =
    restore_server-get_serialized_state sample_proto_laws waiting
      (λ cipher e. cc (e, server_stored))

abbrev saved : Client sample
saved = record {
  elements = (1 ∷ []) ∷ [];
  values = pos 11 ∷ [];
  p = pos 7;
  q = pos 5;
  ec_cipher = client_cipher;
  private_paillier = none;
}

client_stored :
    (CommutativeCipher.get_private_key_bytes client_cipher
      >>= CommutativeCipher.create_from_key 713)
    ≡ ok client_cipher
client_stored =
    create_from_key-get_private_key_bytes sample_laws group 101 refl 713 5 client_cipher
      group_created (omega arith) (omega arith) cipher_made

restore_client-get_serialized_state_example :
    (Client.get_serialized_state saved >>= Client.restore_client flags) ≡ (
      Private.make_private flags (pos 7) (pos 5) 2 >>= λ paillier. ok (record {
        elements = [];
        values = [];
        p = pos 7;
        q = pos 5;
        ec_cipher = client_cipher;
        private_paillier = some paillier;
      }))
restore_client-get_serialized_state_example =
    restore_client-get_serialized_state sample_laws sample_proto_laws flags saved 7 5 refl refl refl
      client_stored

abbrev release : Flags
release = record flags { ndebug = true }

restore_client-ndebug_example : Client.restore_client release (1 ∷ []) ≡ die
restore_client-ndebug_example =
    restore_client-ndebug sample_laws release (1 ∷ []) group 101 refl group_created refl

abbrev failure : Status
failure = invalid_argument_error "No key."

returned-failure : returned {A = ℕ} (err failure) ≡ some (from_status failure)
unfolding returned
returned-failure = refl

copy-returned_example :
    ((a : ℕ) × (◌≡◌ {A = Result ℕ} (err failure) (ok a))
      × (copy {A = ℕ} (from_status failure) ≡ some (from_status failure)))
    ⊎ ((e : Status) × (◌≡◌ {A = Result ℕ} (err failure) (err e))
        × (copy {A = ℕ} (from_status failure) ≡ none))
copy-returned_example = copy-returned (err failure) (from_status failure) returned-failure
