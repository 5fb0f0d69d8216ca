-- ===== src/Client/Phases.antt =====
-- The phases of the client, and what is left of it once it was saved and restored.
use private_join_and_compute.Prelude.{ℕ, ◌≡◌, true, false, some, [], arith}
use private_join_and_compute.Prelude.Int.{pos}
use private_join_and_compute.Prelude.Bytes.{Bytes}
use private_join_and_compute.Util.Result.{ok, die, ◌>>=◌, bind_assoc, >>=-eq-ok}
use private_join_and_compute.Crypto.OpenSsl.{OpenSsl}
use private_join_and_compute.Crypto.OpenSsl.Laws.{BnLaws}
use private_join_and_compute.Crypto.BigNum
use private_join_and_compute.Crypto.BigNum.Laws.{of_u64-ok, to_bytes-ok, of_bytes-to_bytes}
use private_join_and_compute.Crypto.Flags.{Flags}
use private_join_and_compute.Crypto.EcGroup
use private_join_and_compute.Crypto.EcGroup.{EcGroup}
use private_join_and_compute.Crypto.CommutativeCipher
use private_join_and_compute.Crypto.CommutativeCipher.Keys.{check_private_key_lem}
use private_join_and_compute.Crypto.Paillier.Private
use private_join_and_compute.Crypto.Paillier.Private.{PrivatePaillier}
use private_join_and_compute.Match.{Proto, ProtoLaws}
use private_join_and_compute.Client
use private_join_and_compute.Client.{Client, re_encrypt_set, decrypt_sum, encrypt_items}

module _ ⦃lib : OpenSsl⦄ where
  module _ ⦃proto : Proto⦄ where
    -- In a build with NDEBUG, where the curve's number creates a group and its order is a number: restoring
    -- a client from any string, a saved state among them, ends the process, since the string is never
    -- parsed and CreateFromKey refuses the empty key.
    pub restore_client-ndebug :
        (laws : BnLaws lib) (flags : Flags) (serialized : Bytes) (group : EcGroup lib) (n : ℕ)
        → flags.ndebug ≡ true
        → EcGroup.create lib.nid_secp224r1 ≡ ok group
        → group.order ≡ pos n
        → Client.restore_client flags serialized ≡ die
    unfolding Client.restore_client Client.parsed_state Client.restored_keys
        CommutativeCipher.create_from_key BigNum.of_bytes
    restore_client-ndebug laws flags serialized group n h created order =
        rw
          (
            h,
            of_u64-ok laws 0 (omega arith),
            created,
            laws.bin2bn-nil,
            check_private_key_lem laws group n order (pos 0),
          )
          (ground arith)

    -- In a build without NDEBUG, where the client's primes are not negative and its key's bytes give its
    -- cipher back, restoring its saved state makes a Paillier key afresh from the primes and, if that
    -- succeeds, gives a client with the same primes, the same cipher, that key and no items.
    pub restore_client-get_serialized_state :
        (laws : BnLaws lib) (proto_laws : ProtoLaws proto) (flags : Flags) (client : Client lib)
        (p q : ℕ)
        → flags.ndebug ≡ false
        → client.p ≡ pos p
        → client.q ≡ pos q
        → (CommutativeCipher.get_private_key_bytes client.ec_cipher
            >>= CommutativeCipher.create_from_key lib.nid_secp224r1)
          ≡ ok client.ec_cipher
        → (Client.get_serialized_state client >>= Client.restore_client flags) ≡ (
            Private.make_private flags (pos p) (pos q) 2 >>= λ paillier. ok (record {
              elements = [];
              values = [];
              p = pos p;
              q = pos q;
              ec_cipher = client.ec_cipher;
              private_paillier = some paillier;
            }))
    unfolding Client.get_serialized_state Client.restore_client Client.parsed_state
        Client.restored_keys
    restore_client-get_serialized_state laws proto_laws flags client p q debug is_p is_q restores =
        let (bytes, stored, read) =
          >>=-eq-ok (CommutativeCipher.get_private_key_bytes client.ec_cipher) _ restores in
        rw
          (
            is_p,
            is_q,
            to_bytes-ok laws p,
            to_bytes-ok laws q,
            stored,
            debug,
            proto_laws.client_round_trip _,
            of_bytes-to_bytes laws p _ (to_bytes-ok laws p),
            of_bytes-to_bytes laws q _ (to_bytes-ok laws q),
            read,
          )
          (bind_assoc (Private.make_private (record flags { ndebug = false }) (pos p) (pos q) 2) _
            _)
