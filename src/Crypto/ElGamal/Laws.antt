-- ===== src/Crypto/ElGamal/Laws.antt =====
-- What the encrypter and the decrypter of one key pair make of a point: the ciphertext of a message
-- under a random number, and what the operations on ciphertexts do to both.
use native.Mathlib.Nat.{mul_comm}
use private_join_and_compute.Prelude.{ℕ, zero, suc, ◌+◌, ◌*◌, ◌≡◌, sym, ap, ◌∙◌}
use private_join_and_compute.Prelude.Int.{pos}
use private_join_and_compute.Util.Result.{ok}
use private_join_and_compute.Util.Exec
use private_join_and_compute.Util.Exec.{lift}
use private_join_and_compute.Crypto.OpenSsl.{OpenSsl}
use private_join_and_compute.Crypto.OpenSsl.Curve.{
  Curve, IsOn, times-IsOn, times-times, times-add, infinity-plus,
}
use private_join_and_compute.Crypto.EcGroup
use private_join_and_compute.Crypto.EcGroup.{EcGroup}
use private_join_and_compute.Crypto.EcGroup.Laws.{at, mul-at, add-at, inverse-at}
use private_join_and_compute.Crypto.ElGamal
use private_join_and_compute.Crypto.ElGamal.{
  PublicKey, PrivateKey, Ciphertext, ElGamalEncrypter, ElGamalDecrypter,
}

module _ ⦃lib : OpenSsl⦄ (g : EcGroup lib) (curve : Curve lib g.group) where
  swap_sums :
      (a b c d : lib.Point)
      → IsOn lib g.group a
      → IsOn lib g.group b
      → IsOn lib g.group c
      → IsOn lib g.group d
      → curve.plus (curve.plus a b) (curve.plus c d) ≡ curve.plus (curve.plus a c) (curve.plus b d)
  swap_sums a b c d ha hb hc hd =
      curve.plus_assoc a b (curve.plus c d) ha hb (curve.plus-on c d hc hd)
      ∙ ap (curve.plus a) (
          sym (curve.plus_assoc b c d hb hc hd)
          ∙ ap (λ p. curve.plus p d) (curve.plus_comm b c hb hc)
          ∙ curve.plus_assoc c b d hc hb hd)
      ∙ sym (curve.plus_assoc a c (curve.plus b d) ha hc (curve.plus-on b d hb hd))

  times-plus :
      (a b : lib.Point) (k : ℕ)
      → IsOn lib g.group a
      → IsOn lib g.group b
      → curve.times (curve.plus a b) k ≡ curve.plus (curve.times a k) (curve.times b k)
  times-plus a b zero ha hb =
      curve.times-zero (curve.plus a b)
      ∙ sym (infinity-plus curve curve.infinity curve.infinity-on)
      ∙ (λ i. curve.plus (sym (curve.times-zero a) i) (sym (curve.times-zero b) i))
  times-plus a b (suc k) ha hb =
      rw
        (
          curve.times-suc (curve.plus a b) k,
          times-plus a b k ha hb,
          curve.times-suc a k,
          curve.times-suc b k,
        )
        (swap_sums (curve.times a k) (curve.times b k) a b (times-IsOn curve a k ha)
          (times-IsOn curve b k hb) ha hb)

  module _ (base : lib.Point) (base_on : IsOn lib g.group base) (x : ℕ) where
    -- The key pair of the secret x.
    abbrev pub encrypter : ElGamalEncrypter lib
    encrypter = record {
      ec_group = g;
      public_key = record { g = at g curve base; y = at g curve (curve.times base x) };
    }

    abbrev pub decrypter : ElGamalDecrypter
    decrypter = record { private_key = record { x = pos x } }

    -- The ciphertext of m under the random number r.
    abbrev pub ciphertext : lib.Point → ℕ → Ciphertext lib
    ciphertext m r = record {
      u = at g curve (curve.times base r);
      e = at g curve (curve.plus m (curve.times (curve.times base x) r));
    }

    masks : (r : ℕ) → IsOn lib g.group (curve.times (curve.times base x) r)
    masks r = times-IsOn curve _ r (times-IsOn curve base x base_on)

    -- Encryption under the number that the generator draws.
    pub encrypt-ciphertext :
        (m : lib.Point) (r : ℕ) (s s' : lib.Rng)
        → IsOn lib g.group m
        → EcGroup.generate_private_key g s ≡ (ok (pos r), s')
        → ElGamal.encrypt encrypter (at g curve m) s ≡ (ok (ciphertext m r), s')
    unfolding ElGamal.encrypt
    encrypt-ciphertext m r s s' h drawn = rw (
      drawn,
      mul-at g curve base r base_on,
      mul-at g curve (curve.times base x) r (times-IsOn curve base x base_on),
      add-at g curve m (curve.times (curve.times base x) r) h (masks r),
    )

    -- Decryption takes the mask off.
    pub decrypt-ciphertext :
        (m : lib.Point) (r : ℕ)
        → IsOn lib g.group m
        → ElGamal.decrypt decrypter (ciphertext m r) ≡ ok (at g curve m)
    unfolding ElGamal.decrypt
    decrypt-ciphertext m r h =
        let u = curve.times base r in
        let u_on = times-IsOn curve base r base_on in
        let mask = curve.times (curve.times base x) r in
        let same : curve.times u x ≡ mask =
          times-times curve base r x base_on
          ∙ ap (curve.times base) (mul_comm r x)
          ∙ sym (times-times curve base x r base_on) in
        let off = curve.opposite mask in
        rw (
          mul-at g curve u x u_on,
          same,
          inverse-at g curve mask (masks r),
          add-at g curve (curve.plus m mask) off (curve.plus-on m mask h (masks r))
              (curve.opposite-on mask (masks r)),
          curve.plus_assoc m mask off h (masks r) (curve.opposite-on mask (masks r)),
          curve.plus-opposite mask (masks r),
          curve.plus-infinity m h,
        )

    -- Where the generator draws a number r, a point of the curve that is encrypted for the key pair of x
    -- is decrypted to itself.
    pub decrypt-encrypt :
        (m : lib.Point) (r : ℕ) (s s' : lib.Rng)
        → IsOn lib g.group m
        → EcGroup.generate_private_key g s ≡ (ok (pos r), s')
        → Exec.◌>>=◌
            (ElGamal.encrypt encrypter (at g curve m))
            (λ c. lift (ElGamal.decrypt decrypter c))
            s
          ≡ (ok (at g curve m), s')
    decrypt-encrypt m r s s' h drawn =
        rw (encrypt-ciphertext m r s s' h drawn, decrypt-ciphertext m r h)

    -- The product of the ciphertexts of two points of the curve encrypts the sum of the points, and its
    -- random number is the sum of theirs.
    pub mul-ciphertext :
        (m m' : lib.Point) (r r' : ℕ)
        → IsOn lib g.group m
        → IsOn lib g.group m'
        → ElGamal.mul (ciphertext m r) (ciphertext m' r')
          ≡ ok (ciphertext (curve.plus m m') (r + r'))
    unfolding ElGamal.mul
    mul-ciphertext m m' r r' h h' =
        let y = curve.times base x in
        rw (
          add-at g curve (curve.times base r) (curve.times base r')
              (times-IsOn curve base r base_on) (times-IsOn curve base r' base_on),
          add-at g curve (curve.plus m (curve.times y r)) (curve.plus m' (curve.times y r'))
              (curve.plus-on m _ h (masks r)) (curve.plus-on m' _ h' (masks r')),
          swap_sums m (curve.times y r) m' (curve.times y r') h (masks r) h' (masks r'),
          times-add curve base r r' base_on,
          times-add curve y r r' (times-IsOn curve base x base_on),
        )

    -- The k-th power of the ciphertext of a point of the curve encrypts k times the point.
    pub exp-ciphertext :
        (m : lib.Point) (r k : ℕ)
        → IsOn lib g.group m
        → ElGamal.exp (ciphertext m r) (pos k) ≡ ok (ciphertext (curve.times m k) (r * k))
    unfolding ElGamal.exp
    exp-ciphertext m r k h =
        let y = curve.times base x in
        let y_on = times-IsOn curve base x base_on in
        rw (
          mul-at g curve (curve.times base r) k (times-IsOn curve base r base_on),
          mul-at g curve (curve.plus m (curve.times y r)) k (curve.plus-on m _ h (masks r)),
          times-plus m (curve.times y r) k h (masks r),
          times-times curve base r k base_on,
          times-times curve y r k y_on,
        )

    -- Where the generator draws r', the ciphertext of a point of the curve under r is randomized again to
    -- the ciphertext of the same point under r + r'.
    pub re_randomize-ciphertext :
        (m : lib.Point) (r r' : ℕ) (s s' : lib.Rng)
        → IsOn lib g.group m
        → EcGroup.generate_private_key g s ≡ (ok (pos r'), s')
        → ElGamal.re_randomize encrypter (ciphertext m r) s ≡ (ok (ciphertext m (r + r')), s')
    unfolding ElGamal.re_randomize
    re_randomize-ciphertext m r r' s s' h drawn =
        let y = curve.times base x in
        let y_on = times-IsOn curve base x base_on in
        rw (
          drawn,
          mul-at g curve base r' base_on,
          add-at g curve (curve.times base r) (curve.times base r')
              (times-IsOn curve base r base_on) (times-IsOn curve base r' base_on),
          mul-at g curve y r' y_on,
          add-at g curve (curve.plus m (curve.times y r)) (curve.times y r')
              (curve.plus-on m _ h (masks r)) (masks r'),
          curve.plus_assoc m (curve.times y r) (curve.times y r') h (masks r) (masks r'),
          times-add curve base r r' base_on,
          times-add curve y r r' y_on,
        )
