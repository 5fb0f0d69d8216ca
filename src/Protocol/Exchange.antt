-- ===== src/Protocol/Exchange.antt =====
-- The three messages of the protocol in a row, up to the sum that the client decrypts.
use private_join_and_compute.Prelude.{ℕ, ◌*◌, ◌%◌, ◌<◌, ◌≡◌, List, map, length}
use private_join_and_compute.Prelude.Int.{pos}
use private_join_and_compute.Prelude.Bytes.{Bytes}
use private_join_and_compute.Util.Result.{ok}
use private_join_and_compute.Crypto.OpenSsl.{OpenSsl}
use private_join_and_compute.Crypto.OpenSsl.Laws.{BnLaws}
use private_join_and_compute.Crypto.OpenSsl.Curve.{Curve}
use private_join_and_compute.Crypto.BigNum.Laws.{mul-ok, to_bytes-ok}
use private_join_and_compute.Crypto.EcPoint.{EcPoint}
use private_join_and_compute.Crypto.EcGroup.{EcGroup}
use private_join_and_compute.Crypto.Flags.{Flags}
use private_join_and_compute.Crypto.CommutativeCipher.{CommutativeCipher}
use private_join_and_compute.Crypto.CommutativeCipher.Laws.{IsKeyed}
use private_join_and_compute.Crypto.Paillier.Public
use private_join_and_compute.Crypto.Paillier.Public.{PublicPaillier}
use private_join_and_compute.Crypto.Paillier.Private.{PrivatePaillier}
use private_join_and_compute.Std.{sort}
use private_join_and_compute.Std.Order.{product}
use private_join_and_compute.Match.{ServerRoundOne, ClientRoundOne}
use private_join_and_compute.Client.{Client, answer, encrypt_items, element_less}
use private_join_and_compute.Server.{encrypt_inputs, compute_with_cipher}
use private_join_and_compute.Protocol.Join
use private_join_and_compute.Protocol.Join.{Item, common}
use private_join_and_compute.Protocol.Sum.{IsJoinable, compute_with_cipher-common}

module _ ⦃lib : OpenSsl⦄ (laws : BnLaws lib) (g : EcGroup lib) (curve : Curve lib g.group)
    (fuel : ℕ) (hash : Bytes → EcPoint lib) (client : Client lib) (s : CommutativeCipher lib)
    (keyed_c : IsKeyed g curve client.ec_cipher) (keyed_s : IsKeyed g curve s) (items : List Item)
    (ys : List Bytes)
    (joinable : IsJoinable laws g curve fuel hash client.ec_cipher s keyed_c keyed_s items ys) where
  abbrev pub first_message : ServerRoundOne
  first_message = record {
    encrypted_set = map (Join.server_item g curve fuel hash client.ec_cipher s keyed_c keyed_s) ys;
  }

  abbrev pub second_message : ℕ → ClientRoundOne
  second_message n = record {
    public_key = lib.bn_bn2bin (pos n);
    encrypted_set =
        map (Join.client_item g curve fuel hash client.ec_cipher s keyed_c keyed_s) items;
    reencrypted_set =
        sort element_less
          (map (Join.tagged_input g curve fuel hash client.ec_cipher s keyed_c keyed_s) ys);
  }

  answer-tagged :
      (flags : Flags) (paillier : PrivatePaillier lib) (p q : ℕ) (r r' : lib.Rng)
      → client.p ≡ pos p
      → client.q ≡ pos q
      → encrypt_items fuel flags client.ec_cipher paillier client.elements client.values r ≡ (
        ok (map (Join.client_item g curve fuel hash client.ec_cipher s keyed_c keyed_s) items),
        r',
      )
      → answer fuel flags client paillier first_message r ≡ (ok (second_message (p * q)), r')
  unfolding answer
  answer-tagged flags paillier p q r r' is_p is_q encrypted = rw (
    is_p,
    is_q,
    mul-ok laws p q,
    to_bytes-ok laws (p * q),
    encrypted,
    Join.re_encrypt_items_lem g curve fuel hash client.ec_cipher s keyed_c keyed_s ys
        joinable.inputs_hashed,
  )

  -- Where the client's primes are p and q, it encrypts its items to the numbers beside them, and the
  -- server builds the key of p * q and encrypts 0 as z: the server's first message, the client's answer
  -- to it and the server's answer to that end with the number of the client's identifiers that the server
  -- holds too, and with the product of z and of the ciphertexts beside those, modulo the key's modulus.
  pub exchange-common :
      (flags : Flags) (paillier : PrivatePaillier lib) (p q z m : ℕ) (pk : PublicPaillier lib)
      (r r' t t₁ t₂ : lib.Rng)
      → client.p ≡ pos p
      → client.q ≡ pos q
      → encrypt_items fuel flags client.ec_cipher paillier client.elements client.values r ≡ (
        ok (map (Join.client_item g curve fuel hash client.ec_cipher s keyed_c keyed_s) items),
        r',
      )
      → Public.make_public flags fuel (pos (p * q)) 2 t ≡ (ok pk, t₁)
      → Public.encrypt flags pk (pos 0) t₁ ≡ (ok (pos (z % m)), t₂)
      → pk.modulus ≡ pos m
      → 0 < m
      → (encrypt_inputs fuel s ys ≡ ok first_message.encrypted_set)
        × (answer fuel flags client paillier first_message r ≡ (ok (second_message (p * q)), r'))
        × (compute_with_cipher fuel flags s (second_message (p * q)) t ≡ (
          ok (record {
            intersection_size = pos (length (common items ys));
            encrypted_sum = lib.bn_bn2bin (pos (z * product Item.value (common items ys) % m));
          }),
          t₂,
        ))
  exchange-common flags paillier p q z m pk r r' t t₁ t₂ is_p is_q encrypted made zero_encrypted e
        h =
      (
        Join.encrypt_inputs_lem g curve fuel hash client.ec_cipher s keyed_c keyed_s ys
            joinable.inputs_hashed,
        answer-tagged flags paillier p q r r' is_p is_q encrypted,
        compute_with_cipher-common laws g curve fuel hash client.ec_cipher s keyed_c keyed_s items
            ys joinable flags (p * q) z m pk t t₁ t₂ made zero_encrypted e h,
      )
