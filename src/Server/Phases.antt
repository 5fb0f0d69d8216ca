-- ===== src/Server/Phases.antt =====
-- The two phases of the server: it encrypts its set once, and computes the intersection after that.
use private_join_and_compute.Prelude.{ℕ, [], ◌≡◌, refl, none, some, List, Option}
use private_join_and_compute.Prelude.Bytes.{Bytes}
use private_join_and_compute.Util.Status.{invalid_argument_error}
use private_join_and_compute.Util.Result.{ok, err, ◌>>=◌, >>=-eq-ok}
use private_join_and_compute.Crypto.OpenSsl.{OpenSsl}
use private_join_and_compute.Crypto.CommutativeCipher
use private_join_and_compute.Crypto.CommutativeCipher.{CommutativeCipher}
use private_join_and_compute.Util.Exec.{continue-pure}
use private_join_and_compute.Match.{EncryptedSet, ServerRoundOne, Proto, ProtoLaws}
use private_join_and_compute.Server
use private_join_and_compute.Server.{
  Server, encrypt_set, compute_intersection, encrypt_with_new_key, encrypt_inputs,
}

abbrev pub round_one : EncryptedSet → ServerRoundOne
round_one encrypted_set = record { encrypted_set = encrypted_set }

module _ ⦃lib : OpenSsl⦄ where
  open lib use {Rng, nid_secp224r1}

  -- A server that has a key refuses to encrypt its set again and keeps its key; it has had a key since
  -- the first call drew one, whether or not the encryption of the set then succeeded.
  pub encrypt_set-twice :
      (fuel fuel' : ℕ) (inputs : List Bytes) (cipher : CommutativeCipher lib) (g g' : Rng)
      → CommutativeCipher.create_with_new_key nid_secp224r1 g ≡ (ok cipher, g')
      → (encrypt_set fuel (record { ec_cipher = none; inputs = inputs }, g) ≡ (
        (encrypt_inputs fuel cipher inputs >>= λ encrypted_set.
            ok (record { encrypted_set = encrypted_set })),
        (record { ec_cipher = some cipher; inputs = inputs }, g'),
      ))
        × (encrypt_set fuel' (record { ec_cipher = some cipher; inputs = inputs }, g') ≡ (
          err (invalid_argument_error "Attempted to call EncryptSet twice."),
          (record { ec_cipher = some cipher; inputs = inputs }, g'),
        ))
  unfolding encrypt_set encrypt_with_new_key
  encrypt_set-twice fuel fuel' inputs cipher g g' h =
      (rw h (continue-pure (encrypt_inputs fuel cipher inputs) round_one _), refl)

  module _ ⦃proto : Proto⦄ (laws : ProtoLaws proto) where
    -- A server restored from its saved state has the same key, where the key's bytes give the cipher
    -- back; its inputs are not saved.
    pub restore_server-get_serialized_state :
        (server : Server lib)
        → ((cipher : CommutativeCipher lib)
            → server.ec_cipher ≡ some cipher
            → (CommutativeCipher.get_private_key_bytes cipher
                >>= CommutativeCipher.create_from_key nid_secp224r1)
              ≡ ok cipher)
        → (Server.get_serialized_state server >>= Server.restore_server)
          ≡ ok (record { ec_cipher = server.ec_cipher; inputs = [] })
    unfolding Server.get_serialized_state Server.restore_server Server.restored_cipher
    restore_server-get_serialized_state server restores = restored server.ec_cipher restores
      where
        restored :
            (c : Option (CommutativeCipher lib))
            → ((cipher : CommutativeCipher lib)
                → c ≡ some cipher
                → (CommutativeCipher.get_private_key_bytes cipher
                    >>= CommutativeCipher.create_from_key nid_secp224r1)
                  ≡ ok cipher)
            → (Server.get_serialized_state (record { ec_cipher = c; inputs = server.inputs })
                >>= Server.restore_server)
              ≡ ok (record { ec_cipher = c; inputs = [] })
        restored none h = rw (laws.server_round_trip (record { ec_key = none }))
        restored (some cipher) h =
            let (bytes, stored, read) =
              >>=-eq-ok (CommutativeCipher.get_private_key_bytes cipher) _ (h cipher refl) in
            rw (stored, laws.server_round_trip (record { ec_key = some bytes }), read)
