-- ===== src/Protocol/Sum.antt =====
-- The second message of the server: how many identifiers both parties hold, and the product of the
-- client's ciphertexts beside them, which encrypts the sum.
use private_join_and_compute.Prelude.{
  ℕ, ◌*◌, ◌%◌, ◌<◌, ◌≡◌, refl, sym, ap, ◌∙◌, List, [], ◌∷◌, map, length, All, arith,
}
use native.Mathlib.Nat.{mul_assoc}
use private_join_and_compute.Prelude.Int.{pos}
use private_join_and_compute.Prelude.Mod.{mod-mul_left}
use private_join_and_compute.Prelude.Bytes.{Bytes}
use private_join_and_compute.Util.Result.{ok}
use private_join_and_compute.Crypto.OpenSsl.{OpenSsl}
use private_join_and_compute.Crypto.OpenSsl.Laws.{BnLaws}
use private_join_and_compute.Crypto.OpenSsl.Curve.{Curve}
use private_join_and_compute.Crypto.BigNum
use private_join_and_compute.Crypto.BigNum.Laws.{
  mod_mul-ok, to_bytes-ok, of_bytes-to_bytes, of_u64-ok,
}
use private_join_and_compute.Crypto.EcPoint.{EcPoint}
use private_join_and_compute.Crypto.EcGroup.{EcGroup}
use private_join_and_compute.Crypto.Flags.{Flags}
use private_join_and_compute.Crypto.CommutativeCipher.{CommutativeCipher}
use private_join_and_compute.Crypto.CommutativeCipher.Laws.{IsKeyed}
use private_join_and_compute.Crypto.Paillier.Public
use private_join_and_compute.Crypto.Paillier.Public.{PublicPaillier}
use private_join_and_compute.Std.Order.{product, IsDistinct}
use private_join_and_compute.Match.{EncryptedElement, EncryptedSet}
use private_join_and_compute.Std.{sort}
use private_join_and_compute.Client.{element_less}
use private_join_and_compute.Server.{add_all, compute_with_cipher}
use private_join_and_compute.Protocol.Tags
use private_join_and_compute.Protocol.Join
use private_join_and_compute.Protocol.Join.{Item, common}

module _ ⦃lib : OpenSsl⦄ (laws : BnLaws lib) where
  -- The number that stands beside an element.
  unfoldable pub number : EncryptedElement → ℕ
  number e = (laws.bin2bn e.associated_data).0

  number-lem : (e : EncryptedElement) → BigNum.of_bytes e.associated_data ≡ ok (pos (number e))
  unfolding number BigNum.of_bytes
  number-lem e = rw ((laws.bin2bn e.associated_data).1)

  product-cons :
      (e : EncryptedElement) (es : EncryptedSet)
      → product number (e ∷ es) ≡ number e * product number es
  unfolding product
  product-cons e es = refl

  -- Where the key's modulus is m, not 0, the loop starts from z modulo m and returns the product
  -- of z and of the numbers beside all the elements, modulo m.
  pub add_all-product :
      (pk : PublicPaillier lib) (m z : ℕ) (es : EncryptedSet)
      → pk.modulus ≡ pos m
      → 0 < m
      → add_all pk es (pos (z % m)) ≡ ok (pos (z * product number es % m))
  unfolding add_all Public.add
  add_all-product pk m z [] e h = unfold product in ap (λ t. ok (pos (t % m))) (omega arith)
  add_all-product pk m z (x ∷ es) e h =
      rw (number-lem x, e, mod_mul-ok laws (z % m) (number x) m h, mod-mul_left z (number x) m)
        (add_all-product pk m (z * number x) es e h
          ∙ ap (λ t. ok (pos (t % m)))
              (mul_assoc z (number x) (product number es) ∙ ap (◌*◌ z) (sym (product-cons x es))))

  number-bn2bin :
      (v : ℕ) (k : Bytes)
      → number (record { element = k; associated_data = lib.bn_bn2bin (pos v) }) ≡ v
  unfolding number
  number-bn2bin v k =
      let e = sym ((laws.bin2bn (lib.bn_bn2bin (pos v))).1) ∙ laws.bin2bn-bn2bin v in cc e

  product-number :
      (tag_of : Item → Bytes) (items : List Item)
      → product
          (λ x.
            number (record { element = tag_of x; associated_data = lib.bn_bn2bin (pos x.value) }))
          items
        ≡ product Item.value items
  unfolding product
  product-number tag_of [] = refl
  product-number tag_of (x ∷ items) =
      rw (number-bn2bin x.value (tag_of x), product-number tag_of items)

  module _ (g : EcGroup lib) (curve : Curve lib g.group) (fuel : ℕ) (hash : Bytes → EcPoint lib)
      (c s : CommutativeCipher lib) (keyed_c : IsKeyed g curve c)
      (keyed_s : IsKeyed g curve s) where
    -- What both parties rely on about their texts: all hash to the curve within the fuel, the client's
    -- texts are distinct, and no two different texts hash to the same point.
    pub record IsJoinable (items : List Item) (ys : List Bytes) : Type 0 where
      pub items_hashed : All (λ x. Tags.IsHashed g curve fuel hash c s keyed_c keyed_s x.text) items
      pub inputs_hashed : All (Tags.IsHashed g curve fuel hash c s keyed_c keyed_s) ys
      pub distinct : IsDistinct Item.text items
      pub own_apart :
          All
            (λ x. Join.ApartIn g curve fuel hash c s keyed_c keyed_s x (map Item.text items))
            items
      pub apart : All (λ x. Join.ApartIn g curve fuel hash c s keyed_c keyed_s x ys) items

    -- Where the client has sent its encrypted set and the server's set as it encrypted it again, where
    -- the Paillier key is built and encrypts 0 as z, the server answers with the number of the client's
    -- identifiers that it holds too, and with the product of z and of the ciphertexts that stand beside
    -- those identifiers, modulo the key's modulus.
    pub compute_with_cipher-common :
        (items : List Item) (ys : List Bytes) (joinable : IsJoinable items ys) (flags : Flags)
        (n z m : ℕ) (pk : PublicPaillier lib) (r r₁ r₂ : lib.Rng)
        → Public.make_public flags fuel (pos n) 2 r ≡ (ok pk, r₁)
        → Public.encrypt flags pk (pos 0) r₁ ≡ (ok (pos (z % m)), r₂)
        → pk.modulus ≡ pos m
        → 0 < m
        → compute_with_cipher fuel flags s
            (record {
              public_key = lib.bn_bn2bin (pos n);
              encrypted_set = map (Join.client_item g curve fuel hash c s keyed_c keyed_s) items;
              reencrypted_set =
                  sort element_less
                    (map (Join.tagged_input g curve fuel hash c s keyed_c keyed_s) ys);
            })
            r
          ≡ (
            ok (record {
              intersection_size = pos (length (common items ys));
              encrypted_sum = lib.bn_bn2bin (pos (z * product Item.value (common items ys) % m));
            }),
            r₂,
          )
    unfolding compute_with_cipher
    compute_with_cipher-common items ys joinable flags n z m pk r r₁ r₂ made zero_encrypted e h =
        rw (
          of_bytes-to_bytes laws n _ (to_bytes-ok laws n),
          made,
          Join.re_encrypt_client_set_lem g curve fuel hash c s keyed_c keyed_s items
              joinable.items_hashed,
          of_u64-ok laws 0 (omega arith),
          zero_encrypted,
          add_all-product pk m z _ e h,
          to_bytes-ok laws,
          Join.length-intersect g curve fuel hash c s keyed_c keyed_s items ys joinable.items_hashed
              joinable.inputs_hashed joinable.own_apart joinable.apart joinable.distinct,
          Join.product-intersect g curve fuel hash c s keyed_c keyed_s items ys number
              joinable.items_hashed joinable.inputs_hashed joinable.own_apart joinable.apart
              joinable.distinct,
          product-number (λ x. Tags.tag g curve fuel hash c s keyed_c keyed_s x.text),
        )
