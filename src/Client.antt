-- ===== src/Client.antt =====
-- client_lib.h and client_lib.cc: the party that holds the associated values and learns the sum.
-- A method works on the object beside the random number generator; `fuel` bounds the loop that
-- Hashes to the curve.
pub mod Phases
use private_join_and_compute.Prelude.{
  ℕ, ◌/◌, Bool, Option, none, some, List, [], ◌∷◌, if◌then◌else◌,
}
use private_join_and_compute.Prelude.Int.{ℤ}
use private_join_and_compute.Prelude.Bytes.{Bytes, bytes_lt}
use private_join_and_compute.Util.Status.{invalid_argument_error}
use private_join_and_compute.Util.Result
use private_join_and_compute.Util.Result.{
  Result, ok, err, die, check, crypto_check, map_result, require_some, value_or_die,
}
use private_join_and_compute.Util.Exec.{
  Exec, pure, lift, beside, with_object, put_object, ◌>>=◌, ◌>>◌,
}
use private_join_and_compute.Crypto.OpenSsl.{OpenSsl}
use private_join_and_compute.Crypto.BigNum
use private_join_and_compute.Crypto.BigNum.{BigNum}
use private_join_and_compute.Crypto.Context.{generate_safe_prime}
use private_join_and_compute.Crypto.Flags.{Flags}
use private_join_and_compute.Crypto.CommutativeCipher
use private_join_and_compute.Crypto.CommutativeCipher.{CommutativeCipher}
use private_join_and_compute.Crypto.Paillier.Private
use private_join_and_compute.Crypto.Paillier.Private.{PrivatePaillier}
use private_join_and_compute.Std.{sort}
use private_join_and_compute.Match.{
  EncryptedElement, EncryptedSet, ServerRoundOne, ClientRoundOne, ServerRoundTwo, ClientState,
  Proto,
}

pub record Client (lib : OpenSsl) : Type 0 where
  pub elements : List Bytes
  pub values : List BigNum
  pub p : BigNum
  pub q : BigNum
  pub ec_cipher : CommutativeCipher lib
  pub private_paillier : Option (PrivatePaillier lib)

-- The comparison of the calls of std::sort and std::set_intersection.
abbrev pub element_less : EncryptedElement → EncryptedElement → Bool
element_less a b = bytes_lt a.element b.element

module _ ⦃lib : OpenSsl⦄ where
  open lib use {Rng, nid_secp224r1}

  -- Client(ctx, elements, values, modulus_size)
  unfoldable pub make_client : List Bytes → List BigNum → ℕ → Exec Rng (Client lib)
  make_client elements values modulus_size = do
    p ← generate_safe_prime (modulus_size / 2)
    q ← generate_safe_prime (modulus_size / 2)
    cipher ← λ g.
        let (r, g') = CommutativeCipher.create_with_new_key nid_secp224r1 g in (value_or_die r, g')
    pure (record {
      elements = elements;
      values = values;
      p = p;
      q = q;
      ec_cipher = cipher;
      private_paillier = none;
    })

  -- One round of the loop over the client's own items, which are numbered from `i` on by both lists.
  unfoldable pub encrypt_items :
      ℕ
      → Flags
      → CommutativeCipher lib
      → PrivatePaillier lib
      → List Bytes
      → List BigNum
      → Exec Rng EncryptedSet
  encrypt_items fuel flags cipher paillier [] values = pure []
  encrypt_items fuel flags cipher paillier (element ∷ elements) [] = do
    encrypted ← lift (CommutativeCipher.encrypt fuel cipher element)
    lift die
  encrypt_items fuel flags cipher paillier (element ∷ elements) (value ∷ values) = do
    encrypted ← lift (CommutativeCipher.encrypt fuel cipher element)
    ciphertext ← Private.encrypt flags paillier value
    associated_data ← lift (BigNum.to_bytes ciphertext)
    rest ← encrypt_items fuel flags cipher paillier elements values
    pure (record { element = encrypted; associated_data = associated_data } ∷ rest)

  -- The loop over the server's items: nothing but the re-encrypted element is kept.
  unfoldable pub re_encrypt_items : CommutativeCipher lib → EncryptedSet → Result EncryptedSet
  re_encrypt_items cipher = map_result λ element.
      Result.◌>>=◌ (CommutativeCipher.re_encrypt cipher element.element)
        λ reenc. ok (record { element = reenc; associated_data = [] })

  -- ReEncryptSet past the making of the Paillier key.
  unfoldable pub answer :
      ℕ → Flags → Client lib → PrivatePaillier lib → ServerRoundOne → Exec Rng ClientRoundOne
  answer fuel flags client paillier message = do
    pk ← lift (BigNum.mul client.p client.q)
    public_key ← lift (BigNum.to_bytes pk)
    encrypted_set ← encrypt_items fuel flags client.ec_cipher paillier client.elements client.values
    reencrypted ← lift (re_encrypt_items client.ec_cipher message.encrypted_set)
    pure (record {
      public_key = public_key;
      encrypted_set = encrypted_set;
      reencrypted_set = sort element_less reencrypted;
    })

  unfoldable pub re_encrypt_set :
      ℕ → Flags → ServerRoundOne → Exec (Client lib × Rng) ClientRoundOne
  re_encrypt_set fuel flags message = with_object λ client. do
    paillier ← lift (Private.make_private flags client.p client.q 2)
    put_object (record client { private_paillier = some paillier })
    beside (answer fuel flags client paillier message)

  unfoldable pub decrypt_sum : Client lib → ServerRoundTwo → Result (ℤ × BigNum)
  decrypt_sum client server_message =
      Result.◌>>=◌
        (require_some client.private_paillier
          (invalid_argument_error "Called DecryptSum before ReEncryptSet."))
        λ paillier. Result.◌>>=◌ (BigNum.of_bytes server_message.encrypted_sum) λ ciphertext.
          Result.◌>>=◌ (Private.decrypt paillier ciphertext)
            λ sum. ok (server_message.intersection_size, sum)

  module _ ⦃proto : Proto⦄ where
    unfoldable pub get_serialized_state : Client lib → Result Bytes
    get_serialized_state client = Result.◌>>=◌ (BigNum.to_bytes client.p) λ p.
        Result.◌>>=◌ (BigNum.to_bytes client.q) λ q.
          Result.◌>>=◌ (CommutativeCipher.get_private_key_bytes client.ec_cipher) λ ec_key.
            ok (proto.serialize_client (record { p = some p; q = some q; ec_key = some ec_key }))

    -- `assert(state.ParseFromString(serialized))`: under NDEBUG there is no call, and the state that
    -- follows is the empty one.
    unfoldable pub parsed_state : Flags → Bytes → Result ClientState
    parsed_state flags serialized =
        if flags.ndebug
        then ok (record { p = none; q = none; ec_key = none })
        else crypto_check (proto.parse_client serialized)

    -- A field of bytes, or the empty string.
    abbrev pub field_or_empty : Option Bytes → Bytes
    field_or_empty none = []
    field_or_empty (some b) = b

    -- The branch on `state.has_p() && state.has_q()`: p, q and the Paillier key.
    unfoldable pub restored_keys :
        Flags
        → Option Bytes
        → Option Bytes
        → Result (BigNum × BigNum × Option (PrivatePaillier lib))
    restored_keys flags (some p_bytes) (some q_bytes) = Result.◌>>=◌ (BigNum.of_bytes p_bytes) λ p.
        Result.◌>>=◌ (BigNum.of_bytes q_bytes)
          λ q. Result.◌>>=◌ (Private.make_private flags p q 2) λ paillier. ok (p, q, some paillier)
    restored_keys flags _ _ =
        Result.◌>>=◌ (BigNum.of_u64 0) λ p. Result.◌>>=◌ (BigNum.of_u64 0) λ q. ok (p, q, none)

    -- Client(ctx, serialized): the elements and the values are not restored.
    unfoldable pub restore_client : Flags → Bytes → Result (Client lib)
    restore_client flags serialized = Result.◌>>=◌ (parsed_state flags serialized) λ state.
        Result.◌>>=◌ (restored_keys flags state.p state.q) λ keys.
          Result.◌>>=◌
            (value_or_die
              (CommutativeCipher.create_from_key nid_secp224r1 (field_or_empty state.ec_key)))
            λ cipher. ok (record {
              elements = [];
              values = [];
              p = keys.0;
              q = keys.1;
              ec_cipher = cipher;
              private_paillier = keys.2;
            })
