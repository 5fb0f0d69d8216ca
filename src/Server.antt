-- ===== src/Server.antt =====
-- server_lib.h and server_lib.cc: the party that holds identifiers alone, and computes on what the
-- client encrypted. A method works on the object beside the random number generator.
pub mod Phases
pub mod Intersection
use private_join_and_compute.Prelude.{ℕ, Option, none, some, List, [], ◌∷◌, length}
use private_join_and_compute.Prelude.Int.{pos}
use private_join_and_compute.Prelude.Bytes.{Bytes}
use private_join_and_compute.Util.Status.{invalid_argument_error}
use private_join_and_compute.Util.Result
use private_join_and_compute.Util.Result.{
  Result, ok, err, check, crypto_check, map_result, require_some, value_or_die,
}
use private_join_and_compute.Util.Exec.{
  Exec, pure, lift, beside, with_object, put_object, ◌>>=◌, ◌>>◌,
}
use private_join_and_compute.Crypto.OpenSsl.{OpenSsl}
use private_join_and_compute.Crypto.BigNum
use private_join_and_compute.Crypto.BigNum.{BigNum}
use private_join_and_compute.Crypto.Flags.{Flags}
use private_join_and_compute.Crypto.CommutativeCipher
use private_join_and_compute.Crypto.CommutativeCipher.{CommutativeCipher}
use private_join_and_compute.Crypto.Paillier.Public
use private_join_and_compute.Crypto.Paillier.Public.{PublicPaillier}
use private_join_and_compute.Std.{sort, set_intersection}
use private_join_and_compute.Match.{
  EncryptedSet, ServerRoundOne, ClientRoundOne, ServerRoundTwo, Proto,
}
use private_join_and_compute.Client.{element_less}

pub record Server (lib : OpenSsl) : Type 0 where
  pub ec_cipher : Option (CommutativeCipher lib)
  pub inputs : List Bytes

module _ ⦃lib : OpenSsl⦄ where
  open lib use {Rng, nid_secp224r1}

  -- Server(ctx, inputs)
  unfoldable pub make_server : List Bytes → Server lib
  make_server inputs = record { ec_cipher = none; inputs = inputs }

  unfoldable pub encrypt_inputs : ℕ → CommutativeCipher lib → List Bytes → Result EncryptedSet
  encrypt_inputs fuel cipher = map_result λ input.
      Result.◌>>=◌ (CommutativeCipher.encrypt fuel cipher input)
        λ encrypted. ok (record { element = encrypted; associated_data = [] })

  -- EncryptSet past its guard.
  unfoldable pub encrypt_with_new_key : ℕ → Server lib → Exec (Server lib × Rng) ServerRoundOne
  encrypt_with_new_key fuel server = do
    cipher ← beside (CommutativeCipher.create_with_new_key nid_secp224r1)
    put_object (record server { ec_cipher = some cipher })
    encrypted_set ← lift (encrypt_inputs fuel cipher server.inputs)
    pure (record { encrypted_set = encrypted_set })

  unfoldable pub encrypt_set : ℕ → Exec (Server lib × Rng) ServerRoundOne
  encrypt_set fuel = with_object λ server. elim server.ec_cipher [
    | some cipher ↦ lift (err (invalid_argument_error "Attempted to call EncryptSet twice."))
    | none ↦ encrypt_with_new_key fuel server
  ]

  -- The loop over the client's items: the associated data is kept.
  unfoldable pub re_encrypt_client_set : CommutativeCipher lib → EncryptedSet → Result EncryptedSet
  re_encrypt_client_set cipher = map_result λ element.
      Result.◌>>=◌ (CommutativeCipher.re_encrypt cipher element.element)
        λ reenc. ok (record { element = reenc; associated_data = element.associated_data })

  -- The sorting of both sets, and their intersection.
  unfoldable pub intersect : EncryptedSet → EncryptedSet → EncryptedSet
  intersect client_set server_set =
      set_intersection element_less (sort element_less client_set) (sort element_less server_set)

  -- The loop that adds up the associated data under encryption.
  unfoldable pub add_all : PublicPaillier lib → EncryptedSet → BigNum → Result BigNum
  add_all public_paillier [] sum = ok sum
  add_all public_paillier (element ∷ intersection) sum =
      Result.◌>>=◌ (BigNum.of_bytes element.associated_data) λ ciphertext.
        Result.◌>>=◌ (Public.add public_paillier sum ciphertext)
          λ next. add_all public_paillier intersection next

  -- ComputeIntersection past its guard.
  unfoldable pub compute_with_cipher :
      ℕ → Flags → CommutativeCipher lib → ClientRoundOne → Exec Rng ServerRoundTwo
  compute_with_cipher fuel flags cipher client_message = do
    n ← lift (BigNum.of_bytes client_message.public_key)
    public_paillier ← Public.make_public flags fuel n 2
    client_set ← lift (re_encrypt_client_set cipher client_message.encrypted_set)
    let intersection = intersect client_set client_message.reencrypted_set
    zero_bn ← lift (BigNum.of_u64 0)
    encrypted_zero ← Public.encrypt flags public_paillier zero_bn
    sum ← lift (add_all public_paillier intersection encrypted_zero)
    encrypted_sum ← lift (BigNum.to_bytes sum)
    pure (record { intersection_size = pos (length intersection); encrypted_sum = encrypted_sum })

  unfoldable pub compute_intersection :
      ℕ → Flags → ClientRoundOne → Exec (Server lib × Rng) ServerRoundTwo
  compute_intersection fuel flags client_message = with_object λ server. elim server.ec_cipher [
    | none ↦ lift (err (invalid_argument_error "Called ComputeIntersection before EncryptSet."))
    | some cipher ↦ beside (compute_with_cipher fuel flags cipher client_message)
  ]

  module _ ⦃proto : Proto⦄ where
    unfoldable pub get_serialized_state : Server lib → Result Bytes
    get_serialized_state server = elim server.ec_cipher [
      | none ↦ ok (proto.serialize_server (record { ec_key = none }))
      | some cipher ↦
          Result.◌>>=◌ (CommutativeCipher.get_private_key_bytes cipher)
            λ ec_key. ok (proto.serialize_server (record { ec_key = some ec_key }))
    ]

    unfoldable pub restored_cipher : Option Bytes → Result (Option (CommutativeCipher lib))
    restored_cipher none = ok none
    restored_cipher (some ec_key) =
        Result.◌>>=◌ (value_or_die (CommutativeCipher.create_from_key nid_secp224r1 ec_key))
          λ cipher. ok (some cipher)

    -- Server(ctx, serialized_state): the inputs are not restored.
    unfoldable pub restore_server : Bytes → Result (Server lib)
    restore_server serialized_state =
        Result.◌>>=◌ (crypto_check (proto.parse_server serialized_state)) λ state.
          Result.◌>>=◌ (restored_cipher state.ec_key)
            λ cipher. ok (record { ec_cipher = cipher; inputs = [] })
