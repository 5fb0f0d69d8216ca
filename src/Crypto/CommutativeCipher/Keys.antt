-- ===== src/Crypto/CommutativeCipher/Keys.antt =====
-- Keys: which ones a cipher takes, and how a stored key gives the cipher back.
use private_join_and_compute.Prelude.{
  if◌then◌else◌, ◌&&◌, ℕ, ◌*◌, ◌%◌, ◌<◌, ◌≡◌, refl, ap, ◌∙◌, arith,
}
use private_join_and_compute.Prelude.Int.{ℤ, pos, ltb_ℤ}
use private_join_and_compute.Util.Status.{invalid_argument_error}
use private_join_and_compute.Util.Result.{ok, err, ◌>>=◌}
use private_join_and_compute.Crypto.OpenSsl.{OpenSsl}
use private_join_and_compute.Crypto.OpenSsl.Laws.{BnLaws}
use private_join_and_compute.Crypto.OpenSsl.Curve.{Curve}
use private_join_and_compute.Crypto.BigNum
use private_join_and_compute.Crypto.BigNum.Laws.{of_u64-ok, ge_lem, mod_inverse-ok, to_bytes-ok}
use private_join_and_compute.Crypto.EcGroup
use private_join_and_compute.Crypto.EcGroup.{EcGroup}
use private_join_and_compute.Crypto.CommutativeCipher
use private_join_and_compute.Crypto.CommutativeCipher.{CommutativeCipher}
use private_join_and_compute.Crypto.CommutativeCipher.Laws.{IsKeyed}

module _ ⦃lib : OpenSsl⦄ (laws : BnLaws lib) (g : EcGroup lib) (n : ℕ)
    (order : g.order ≡ pos n) where
  -- Where the group has order n, CheckPrivateKey accepts the integers from 1 to n - 1, and turns every
  -- other integer down with its error: 0, the negative ones and those from n on.
  pub check_private_key_lem :
      (k : ℤ)
      → EcGroup.check_private_key g k ≡ (
          if ltb_ℤ (pos 0) k && ltb_ℤ k (pos n)
          then ok tt
          else err (
              invalid_argument_error
                "The given key is out of bounds, needs to be in [1, order) instead."))
  unfolding EcGroup.check_private_key
  check_private_key_lem k =
      let zero_bn = of_u64-ok laws 0 (omega arith) in
      let low = ge_lem laws (pos 0) k in
      let high = ge_lem laws k (pos n) in rw (zero_bn, order, low, high) (ground arith)

  accepted : (k : ℕ) → 0 < k → k < n → EcGroup.check_private_key g (pos k) ≡ ok tt
  accepted k low high = check_private_key_lem (pos k) ∙ ground (arith, low, high)

  -- A key with an inverse modulo the order makes a cipher whose scalars undo each other.
  pub make_cipher-IsKeyed :
      (curve : Curve lib g.group) (k b : ℕ)
      → curve.order ≡ n
      → 0 < n
      → k * b % n ≡ 1 % n
      → (c : CommutativeCipher lib) × (CommutativeCipher.make_cipher g (pos k) ≡ ok c)
        × IsKeyed g curve c
  unfolding CommutativeCipher.make_cipher
  make_cipher-IsKeyed curve k b same h e =
      let (r, found, below, inverts) = mod_inverse-ok laws k n b h e in
      (
        record { group = g; private_key = pos k; private_key_inverse = pos r },
        rw (order, found),
        record {
          same_group = refl;
          key = k;
          inverse = r;
          private_key_lem = refl;
          private_key_inverse_lem = refl;
          inverts = rw same inverts;
        },
      )

  private_key-make_cipher :
      (k : ℕ) (c : CommutativeCipher lib)
      → CommutativeCipher.make_cipher g (pos k) ≡ ok c
      → c.private_key ≡ pos k
  unfolding CommutativeCipher.make_cipher
  private_key-make_cipher k c h = ground arith

  -- Where the group has order n and is the one that the curve's number creates, the cipher of a key from 1
  -- to n - 1 comes back from the bytes of its key.
  pub create_from_key-get_private_key_bytes :
      (curve_id k : ℕ) (c : CommutativeCipher lib)
      → EcGroup.create curve_id ≡ ok g
      → 0 < k
      → k < n
      → CommutativeCipher.make_cipher g (pos k) ≡ ok c
      → (CommutativeCipher.get_private_key_bytes c >>= CommutativeCipher.create_from_key curve_id)
        ≡ ok c
  unfolding CommutativeCipher.get_private_key_bytes CommutativeCipher.create_from_key
      BigNum.of_bytes
  create_from_key-get_private_key_bytes curve_id k c created low high made =
      ap (λ key. BigNum.to_bytes key >>= CommutativeCipher.create_from_key curve_id)
        (private_key-make_cipher k c made)
      ∙ rw (to_bytes-ok laws k, created, laws.bin2bn-bn2bin k, accepted k low high) made
