-- ===== src/Crypto/Paillier/Private/Decrypt.antt =====
-- PrivatePaillier::Decrypt: the message of a ciphertext that holds it, the sum of the messages of a
-- product.
use native.Mathlib.Nat.{
  one-le-pow, mul-pos, mod-mod, mul_comm, mod-eq_of_lt, mod-mod_of_dvd, dvd-mul_right,
}
use private_join_and_compute.Prelude.{
  ℕ, suc, ◌+◌, ◌*◌, ◌%◌, ◌^◌, ◌<◌, ◌≡◌, refl, sym, ap, ◌∙◌, true, ltb, arith, subst,
}
use private_join_and_compute.Prelude.Int.{pos}
use private_join_and_compute.Prelude.Mod.{mod-mul_both, mod-mul_unit, pow_mul, pow_add}
use private_join_and_compute.Util.Result.{ok}
use private_join_and_compute.Util.Macros
use private_join_and_compute.Crypto.OpenSsl.{OpenSsl}
use private_join_and_compute.Crypto.OpenSsl.Laws.{BnLaws}
use private_join_and_compute.Crypto.BigNum
use private_join_and_compute.Crypto.BigNum.Laws.{is_non_negative-pos, lt_lem}
use private_join_and_compute.Crypto.Flags.{Flags}
use private_join_and_compute.Crypto.TwoModulusCrt.Laws.{Combines-compute}
use private_join_and_compute.Crypto.Paillier.Coprime.{crt_unique}
use private_join_and_compute.Crypto.Paillier.PrimeCrypto.Make.{prime_positive}
use private_join_and_compute.Crypto.Paillier.PrimeCrypto.Decrypt.{Holds, decrypt_lem}
use private_join_and_compute.Crypto.Paillier.Private
use private_join_and_compute.Crypto.Paillier.Private.{PrivatePaillier}
use private_join_and_compute.Crypto.Paillier.Private.Make.{ArePrimes, IsPrivateKey, low_units}

-- A ciphertext below the power s + 1 of n = p * q that holds the message m.
pub record IsCiphertext (p q s m c : ℕ) : Type 0 where
  pub on_p : Holds p q s m c
  pub on_q : Holds q p s m c

-- The product of two ciphertexts holds the sum.
Holds-mul :
    (p q s m m' c c' k : ℕ)
    → Holds p q s m c
    → Holds p q s m' c'
    → Holds p q s (m + m') (c * c' % (p ^ suc s * k))
unfolding Holds
Holds-mul p q s m m' c c' k (z, w, unit, e) (z', w', unit', e') =
    let P = p ^ suc s in
    let n = p * q in
    let N = n ^ s in
    (
      z * z',
      w * w',
      mod-mul_unit z w z' w' p unit unit',
      mod-mod_of_dvd P (c * c') (dvd-mul_right P k)
          ∙ mod-mul_both c ((1 + n) ^ m * z ^ N) c' ((1 + n) ^ m' * z' ^ N) P e e'
          ∙ ap (λ t. t % P)
              (shuffle ((1 + n) ^ m) (z ^ N) ((1 + n) ^ m') (z' ^ N)
                ∙ ap (λ t. t * (z ^ N * z' ^ N)) (sym (pow_add (1 + n) m m'))
                ∙ ap (λ t. (1 + n) ^ (m + m') * t) (sym (pow_mul z z' N))),
    )
  where
    shuffle : (a b c d : ℕ) → a * b * (c * d) ≡ a * c * (b * d)
    shuffle a b c d = omega arith

pub IsCiphertext-mul :
    (p q s m m' c c' : ℕ)
    → IsCiphertext p q s m c
    → IsCiphertext p q s m' c'
    → IsCiphertext p q s (m + m') (c * c' % (p * q) ^ suc s)
IsCiphertext-mul p q s m m' c c' first second =
    let split_p : p ^ suc s * q ^ suc s ≡ (p * q) ^ suc s = sym (pow_mul p q (suc s)) in
    let split_q : q ^ suc s * p ^ suc s ≡ (p * q) ^ suc s =
      mul_comm (q ^ suc s) (p ^ suc s) ∙ split_p in
    record {
      on_p =
          subst (λ N. Holds p q s (m + m') (c * c' % N)) split_p
            (Holds-mul p q s m m' c c' (q ^ suc s) first.on_p second.on_p);
      on_q =
          subst (λ N. Holds q p s (m + m') (c * c' % N)) split_q
            (Holds-mul q p s m m' c c' (p ^ suc s) first.on_q second.on_q);
    }

module _ ⦃lib : OpenSsl⦄ (laws : BnLaws lib) (flags : Flags) (p q s : ℕ) (primes : ArePrimes p q s)
    (g h : ℕ) (key : PrivatePaillier lib)
    (is_key : IsPrivateKey laws flags p q s primes g h key) where
  -- Decrypting a ciphertext below the power s + 1 of n that holds m gives m modulo the power s of n.
  pub decrypt-IsCiphertext :
      (m c : ℕ)
      → IsCiphertext p q s m c
      → c < (p * q) ^ suc s
      → Private.decrypt key (pos c) ≡ ok (pos (m % (p * q) ^ s))
  unfolding Private.decrypt Macros.ret_invalid_arg_check
  decrypt-IsCiphertext m c holds below =
      let P = p ^ s in
      let Q = q ^ s in
      let hp = prime_positive p q s primes.on_p in
      let hq = prime_positive q p s primes.on_q in
      let (z, combined, less, on_p, on_q) =
        Combines-compute laws key.two_mod_crt_decrypt P Q is_key.decrypt_crt (m % P) (m % Q) in
      let (v, unit) = low_units q p s primes.on_q in
      let order : (p * q) ^ s ≡ P * Q = pow_mul p q s in
      let positive : 0 < P * Q = mul-pos (one-le-pow s p hp) (one-le-pow s q hq) in
      let agree : z % (P * Q) ≡ m % (P * Q) =
        crt_unique P Q v z m positive unit (on_p ∙ mod-mod m P) (on_q ∙ mod-mod m Q) in
      let value : z ≡ m % (p * q) ^ s =
        sym (mod-eq_of_lt less) ∙ agree ∙ ap (λ t. m % t) (sym order) in
      let e : ltb (c + 0) ((p * q) ^ suc s + 0) ≡ true = ground (arith, below) in
      let tested : BigNum.lt (pos c) key.n_to_s_plus_one ≡ true =
        ap (BigNum.lt (pos c)) is_key.n_to_s_plus_one_lem
        ∙ lt_lem laws (pos c) (pos ((p * q) ^ suc s))
        ∙ e in
      rw
        (
          is_non_negative-pos laws c,
          tested,
          decrypt_lem laws p q s key.p_crypto is_key.p_made.key primes.on_p.field m c holds.on_p,
          decrypt_lem laws q p s key.q_crypto is_key.q_made.key primes.on_q.field m c holds.on_q,
          combined,
          value,
        )
        refl
