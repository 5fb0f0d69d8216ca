-- ===== src/Crypto/Paillier/PrimeCrypto/Decrypt.antt =====
-- PrimeCrypto::Decrypt: the message modulo the power s of the prime.
use native.Mathlib.Nat.{
  one-le-pow, mod-mod, mod-one, pow-zero, mul-one, one-mul, mod-mod_of_dvd, dvd-mul_right,
}
use private_join_and_compute.Prelude.{
  ℕ, zero, suc, ◌+◌, ◌-◌, ◌*◌, ◌%◌, ◌^◌, ◌<◌, ◌≡◌, refl, sym, ap, ◌∙◌, arith,
}
use private_join_and_compute.Prelude.Int.{pos, ◌*ℤ◌, mod_ℤ}
use private_join_and_compute.Prelude.Int.Remainder.{mod_ℤ-mul}
use private_join_and_compute.Prelude.Mod.{
  mod-mul_cong, mod-mul_both, mod-pow_cong, mod_cong_down, pow_add, pow_mul, pow_pow, one_pow,
}
use private_join_and_compute.Util.Result.{ok, read_at}
use private_join_and_compute.Crypto.OpenSsl.{OpenSsl}
use private_join_and_compute.Crypto.OpenSsl.Laws.{BnLaws}
use private_join_and_compute.Crypto.BigNum
use private_join_and_compute.Crypto.BigNum.{BigNum}
use private_join_and_compute.Crypto.BigNum.Laws.{of_u64-ok, mod_mul_signed, mod_by-ok, mod_exp-ok}
use private_join_and_compute.Crypto.Paillier.Binomial.{
  falling, expansion, log_sum, log_sum_first, log_sum_down, expansion-log_sum, pow-expansion,
}
use private_join_and_compute.Crypto.Paillier.Fermat.{IsFieldOrder, pow_prime_unit, pow_lift_all}
use private_join_and_compute.Crypto.Paillier.PrimeCrypto
use private_join_and_compute.Crypto.Paillier.PrimeCrypto.{PrimeCrypto, decrypt_inner, decrypt_outer}
use private_join_and_compute.Crypto.Paillier.PrimeCrypto.Key.{IsPrimeKey}
use private_join_and_compute.Crypto.Paillier.PrimeCrypto.LFunc.{l_func_lem}
use private_join_and_compute.Crypto.Paillier.PrimeCrypto.Loops.{decrypt_inner_lem}

-- The ciphertext c holds the message m as far as the prime p of n = p * q can tell: c is (1 + n) ^ m times
-- the power n ^ s of a number z that p does not divide, modulo the power s + 1 of p.
unfoldable pub Holds : ℕ → ℕ → ℕ → ℕ → ℕ → Type 0
Holds p q s m c =
    (z w : ℕ) × (z * w % p ≡ 1 % p)
    × (c % p ^ suc s ≡ (1 + p * q) ^ m * z ^ ((p * q) ^ s) % p ^ suc s)

-- The power p - 1 takes the random part away.
random_part :
    (p q s z w : ℕ)
    → IsFieldOrder p
    → z * w % p ≡ 1 % p
    → (z ^ ((p * q) ^ s)) ^ (p - 1) % p ^ suc s ≡ 1 % p ^ suc s
unfolding IsFieldOrder
random_part p q s z w field e =
    let fermat = pow_prime_unit p z w field e in
    let lifted = pow_lift_all p (z ^ (p - 1)) field.0 fermat s in
    let exponent : (p * q) ^ s * (p - 1) ≡ (p - 1) * p ^ s * q ^ s =
      ap (λ t. t * (p - 1)) (pow_mul p q s) ∙ shuffle (p ^ s) (q ^ s) (p - 1) in
    let split : (z ^ ((p * q) ^ s)) ^ (p - 1) ≡ ((z ^ (p - 1)) ^ (p ^ s)) ^ (q ^ s) =
      pow_pow z ((p * q) ^ s) (p - 1)
      ∙ ap (λ k. z ^ k) exponent
      ∙ sym (pow_pow z ((p - 1) * p ^ s) (q ^ s))
      ∙ ap (λ t. t ^ (q ^ s)) (sym (pow_pow z (p - 1) (p ^ s))) in
    ap (λ t. t % p ^ suc s) split
    ∙ mod-pow_cong ((z ^ (p - 1)) ^ (p ^ s)) 1 (q ^ s) (p ^ suc s) lifted
    ∙ ap (λ t. t % p ^ suc s) (one_pow (q ^ s))
  where
    shuffle : (x y r : ℕ) → x * y * r ≡ r * x * y
    shuffle x y r = omega arith

-- What is left is 1 + n times the logarithm's sum.
power_left :
    (p q s m c : ℕ)
    → IsFieldOrder p
    → Holds p q s m c
    → c ^ (p - 1) % p ^ suc s ≡ (1 + p * q * log_sum (p * q) (m * (p - 1)) s) % p ^ suc s
unfolding Holds
power_left p q s m c field (z, w, unit, e) =
    let n = p * q in
    let P = p ^ suc s in
    let M = m * (p - 1) in
    let g = (1 + n) ^ m in
    let h = z ^ (n ^ s) in
    mod-pow_cong c (g * h) (p - 1) P e
    ∙ ap (λ t. t % P) (pow_mul g h (p - 1))
    ∙ mod-mul_both (g ^ (p - 1)) (g ^ (p - 1)) (h ^ (p - 1)) 1 P refl
        (random_part p q s z w field unit)
    ∙ ap (λ t. t % P) (mul-one (g ^ (p - 1)) ∙ pow_pow (1 + n) m (p - 1))
    ∙ mod_cong_down ((1 + n) ^ M) (expansion n M s) P (q ^ suc s)
        (rw (pow_mul p q (suc s)) at (pow-expansion n M s))
    ∙ ap (λ t. t % P) (expansion-log_sum n M s)

module _ ⦃lib : OpenSsl⦄ (laws : BnLaws lib) (p q s : ℕ) (c : PrimeCrypto lib)
    (key : IsPrimeKey laws p q s c) (field : IsFieldOrder p) where
  above_one_p : 1 < p
  unfolding IsFieldOrder
  above_one_p = field.0

  positive_p : 0 < p
  positive_p = let h = above_one_p in omega (arith, h)

  -- The outer loop starts from the exponent modulo the power j of p and ends with it modulo the power s.
  decrypt_outer_lem :
      (M rounds j : ℕ) (m : BigNum)
      → rounds + j ≡ s
      → mod_ℤ m (p ^ j) ≡ M % p ^ j
      → (result : BigNum) × (decrypt_outer rounds (suc j) c (pos (log_sum (p * q) M s % p ^ s)) m
          ≡ ok result)
        × (mod_ℤ result (p ^ s) ≡ M % p ^ s)
  unfolding decrypt_outer
  decrypt_outer_lem M zero j m e is_m =
      let same : j ≡ s = omega (arith, e) in
      (m, refl, ap (λ k. mod_ℤ m (p ^ k)) (sym same) ∙ is_m ∙ ap (λ k. M % p ^ k) same)
  decrypt_outer_lem M (suc r) j m e is_m =
      let S = log_sum (p * q) M s in
      let T = S % p ^ s % p ^ suc j in
      let P = p ^ suc j in
      let large : 0 < P = one-le-pow (suc j) p positive_p in
      let split : suc j + r ≡ s = omega (arith, e) in
      let order : p ^ s ≡ P * p ^ r = ap (λ k. p ^ k) (sym split) ∙ pow_add p (suc j) r in
      let shorter : T ≡ S % P =
        ap (λ k. S % k % P) order ∙ mod-mod_of_dvd P S (dvd-mul_right P (p ^ r)) in
      let sum : S % P ≡ log_sum (p * q) M (suc j) % P =
        ap (λ k. log_sum (p * q) M k % P) (sym split) ∙ log_sum_down p q M (suc j) r in
      let first : falling M 1 ≡ M = unfold falling in omega arith in
      let (inner, runs, equal) =
        decrypt_inner_lem laws p q s c key positive_p M j 0 j m (pos T) m M
          (log_sum (p * q) M (suc j)) (omega arith) (omega (arith, e)) is_m
          (ap (λ k. k % p ^ j) (none_more M)) (is_m ∙ ap (λ k. k % p ^ j) (sym first))
          (unfold mod_ℤ in mod-mod (S % p ^ s) P ∙ shorter ∙ sum)
          (ap (λ k. (log_sum (p * q) M (suc j) + k) % P) (log_sum_first (p * q) M)) in
      let (result, rest, final) = decrypt_outer_lem M r (suc j) inner (omega (arith, e)) equal in
      let before : suc j - 1 ≡ j = omega arith in
      let after : suc j + 1 ≡ suc (suc j) = omega arith in
      (
        result,
        rw
            (
              key.lists.powers_lem (suc j) (omega (arith, e)),
              mod_by-ok laws (S % p ^ s) P large,
              before,
              runs,
              after,
            )
            rest,
        final,
      )
    where
      none_more : (x : ℕ) → x + 0 ≡ x
      none_more x = omega arith

  -- A prime's part of the message: what decrypting gives for a ciphertext that holds m is m modulo the
  -- power s of the prime.
  pub decrypt_lem :
      (m t : ℕ) → Holds p q s m t → PrimeCrypto.decrypt c (pos t) ≡ ok (pos (m % p ^ s))
  unfolding PrimeCrypto.decrypt
  decrypt_lem m t holds =
      let P = p ^ suc s in
      let K = p ^ s in
      let large : 0 < P = one-le-pow (suc s) p positive_p in
      let large_K : 0 < K = one-le-pow s p positive_p in
      let M = m * (p - 1) in
      let u = t ^ (p - 1) % P in
      let left : u % P ≡ (1 + p * q * log_sum (p * q) M s) % P =
        mod-mod (t ^ (p - 1)) P ∙ power_left p q s m t field holds in
      let (result, runs, equal) = decrypt_outer_lem M s 0 (pos 0) (omega arith) (start M) in
      let (v, is_v, inverts) = key.lambda in
      let top : s + 1 ≡ suc s = omega arith in
      let unscaled : mod_ℤ (result *ℤ pos v) K ≡ m % K =
        mod_ℤ-mul result (pos v) M v K large_K equal (unfold mod_ℤ in refl)
        ∙ ap (λ k. k % K) (shuffle m (p - 1) v)
        ∙ mod-mul_cong ((p - 1) * v) 1 m K inverts
        ∙ ap (λ k. k % K) (one-mul m) in
      let modulus : read_at c.powers (c.s + 1) ≡ ok (pos P) =
        ap (λ k. read_at c.powers (k + 1)) key.s_lem
        ∙ ap (read_at c.powers) top
        ∙ key.lists.powers_lem (suc s) (omega arith) in
      let power : read_at c.powers c.s ≡ ok (pos K) =
        ap (read_at c.powers) key.s_lem ∙ key.lists.powers_lem s (omega arith) in
      let raised : BigNum.mod_exp (pos t) c.p_phi (pos P) ≡ ok (pos u) =
        ap (λ e. BigNum.mod_exp (pos t) e (pos P)) key.p_phi_lem
        ∙ mod_exp-ok laws t (p - 1) P large in
      let loops =
        ap (λ k. decrypt_outer k 1 c (pos (log_sum (p * q) M s % K)) (pos 0)) key.s_lem ∙ runs in
      let last : BigNum.mod_mul result c.lambda_inv (pos K) ≡ ok (pos (m % K)) =
        ap (λ e. BigNum.mod_mul result e (pos K)) is_v
        ∙ mod_mul_signed laws result (pos v) K large_K
        ∙ ap (λ k. ok (pos k)) unscaled in
      rw
        (
          modulus,
          raised,
          l_func_lem laws p q s c key above_one_p u (log_sum (p * q) M s) left,
          of_u64-ok laws 0 (omega arith),
          loops,
          power,
          last,
        )
        refl
    where
      shuffle : (x y v : ℕ) → x * y * v ≡ y * v * x
      shuffle x y v = omega arith

      start : (x : ℕ) → mod_ℤ (pos 0) (p ^ 0) ≡ x % p ^ 0
      start x = rw (pow-zero p) (unfold mod_ℤ in sym (mod-one x))
