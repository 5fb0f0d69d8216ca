-- ===== src/Crypto/Paillier/PrimeCrypto/Loops.antt =====
-- The two loops of PrimeCrypto::Decrypt: the exponent from the logarithm's sum, one power of p after the
-- other. The numbers of the loops may be negative; the theorems say what they are congruent to.
use native.Mathlib.Nat.{one-le-pow, pow-suc}
use private_join_and_compute.Prelude.{
  ℕ, zero, suc, ◌+◌, ◌-◌, ◌*◌, ◌%◌, ◌^◌, ◌<◌, ◌≤◌, ◌≡◌, refl, sym, ap, ◌∙◌, arith,
}
use private_join_and_compute.Prelude.Int.{pos, ◌-ℤ◌, ◌*ℤ◌, mod_ℤ}
use private_join_and_compute.Prelude.Int.Remainder.{
  mod-add_cancel, mod_ℤ-sub, mod_ℤ-mul, mod_ℤ_down,
}
use private_join_and_compute.Prelude.Mod.{mod-add_cong}
use private_join_and_compute.Util.Result.{ok}
use private_join_and_compute.Crypto.OpenSsl.{OpenSsl}
use private_join_and_compute.Crypto.OpenSsl.Laws.{BnLaws}
use private_join_and_compute.Crypto.BigNum.{BigNum}
use private_join_and_compute.Crypto.BigNum.Laws.{of_u64-ok, sub_signed, mod_mul_signed, mul-ok}
use private_join_and_compute.Crypto.Paillier.Binomial.{choose, falling, log_sum}
use private_join_and_compute.Crypto.Paillier.Table.{get}
use private_join_and_compute.Crypto.Paillier.PrimeCrypto.{PrimeCrypto, decrypt_inner}
use private_join_and_compute.Crypto.Paillier.PrimeCrypto.Key.{IsPrimeKey}
use private_join_and_compute.Crypto.Paillier.Precomp.Cell.{cell_of}
use private_join_and_compute.Crypto.Paillier.PrimeCrypto.Terms.{
  less_one, less_by, falling_step, cell_term,
}

module _ ⦃lib : OpenSsl⦄ (laws : BnLaws lib) (p q s : ℕ) (c : PrimeCrypto lib)
    (key : IsPrimeKey laws p q s c) (positive : 0 < p) (M : ℕ) where
  decrypt_inner_step :
      (r k j cell : ℕ) (m t1 t2 : BigNum)
      → j ≤ suc s
      → get c.decrypt_precomp k j ≡ ok (pos cell)
      → decrypt_inner (suc r) k j c m t1 t2
        ≡ decrypt_inner r
            (k + 1)
            j
            c
            (m -ℤ pos 1)
            (t1 -ℤ pos (mod_ℤ (t2 *ℤ (m -ℤ pos 1)) (p ^ j) * cell))
            (pos (mod_ℤ (t2 *ℤ (m -ℤ pos 1)) (p ^ j)))
  unfolding decrypt_inner
  decrypt_inner_step r k j cell m t1 t2 h found =
      rw
        (
          of_u64-ok laws 1 (omega arith),
          sub_signed laws m (pos 1),
          key.lists.powers_lem j h,
          mod_mul_signed laws t2 (m -ℤ pos 1) (p ^ j) (one-le-pow j p positive),
          found,
          mul-ok laws (mod_ℤ (t2 *ℤ (m -ℤ pos 1)) (p ^ j)) cell,
          sub_signed laws t1 (pos (mod_ℤ (t2 *ℤ (m -ℤ pos 1)) (p ^ j) * cell)),
        )
        refl

  -- The product that a round makes of `t2`, modulo the power of p below.
  next_product :
      (i j : ℕ) (m t2 : BigNum) (y : ℕ)
      → mod_ℤ (m -ℤ pos 1) (p ^ j) ≡ y % p ^ j
      → (y + suc i) % p ^ j ≡ M % p ^ j
      → mod_ℤ t2 (p ^ j) ≡ falling M (suc i) % p ^ j
      → mod_ℤ (t2 *ℤ (m -ℤ pos 1)) (p ^ suc j) % p ^ j ≡ falling M (suc (suc i)) % p ^ j
  next_product i j m t2 y is_m is_y is_t2 =
      let P = p ^ j in
      let large : 0 < P = one-le-pow j p positive in
      ap (λ k. mod_ℤ (t2 *ℤ (m -ℤ pos 1)) k % P) (pow-suc p j)
      ∙ sym (mod_ℤ_down (t2 *ℤ (m -ℤ pos 1)) P p large positive)
      ∙ mod_ℤ-mul t2 (m -ℤ pos 1) (falling M (suc i)) y P large is_t2 is_m
      ∙ falling_step P M (suc i) y (falling M (suc i)) large refl is_y

  -- What a round takes from `t1` moves from what is short to the sum.
  next_sums :
      (i j T b : ℕ)
      → b % p ^ suc j ≡ choose M (suc (suc i)) * (p * q) ^ suc i % p ^ suc j
      → (T + log_sum (p * q) M (suc i)) % p ^ suc j ≡ (log_sum (p * q) M (suc j) + M) % p ^ suc j
      → (T + (p ^ suc j - 1) * b + log_sum (p * q) M (suc (suc i))) % p ^ suc j
        ≡ (log_sum (p * q) M (suc j) + M) % p ^ suc j
  next_sums i j T b e sums =
      let P = p ^ suc j in
      let L = log_sum (p * q) M (suc i) in
      let term = choose M (suc (suc i)) * (p * q) ^ suc i in
      let T' = T + (P - 1) * b in
      let longer : log_sum (p * q) M (suc (suc i)) ≡ L + term = unfold log_sum in refl in
      ap (λ k. (T' + k) % P) longer
      ∙ mod-add_cong T' T' (L + term) (L + b) P refl (mod-add_cong L L term b P refl (sym e))
      ∙ ap (λ k. k % P) (shuffle T' L b)
      ∙ mod-add_cong (T' + b) T L L P (less_by P T b (one-le-pow (suc j) p positive)) refl
      ∙ sums
    where
      shuffle : (x l b : ℕ) → x + (l + b) ≡ x + b + l
      shuffle x l b = omega arith

  -- After i rounds, `m_lambda` is M - i and `t2` the falling product of M, both modulo a power of p, and
  -- `t1` is short of the whole sum by the terms from the second on.
  pub decrypt_inner_lem :
      (rounds i j : ℕ) (m t1 t2 : BigNum) (y T : ℕ)
      → rounds + i ≡ j
      → suc j ≤ s
      → mod_ℤ m (p ^ j) ≡ y % p ^ j
      → (y + i) % p ^ j ≡ M % p ^ j
      → mod_ℤ t2 (p ^ j) ≡ falling M (suc i) % p ^ j
      → mod_ℤ t1 (p ^ suc j) ≡ T % p ^ suc j
      → (T + log_sum (p * q) M (suc i)) % p ^ suc j ≡ (log_sum (p * q) M (suc j) + M) % p ^ suc j
      → (result : BigNum) × (decrypt_inner rounds (suc (suc i)) (suc j) c m t1 t2 ≡ ok result)
        × (mod_ℤ result (p ^ suc j) ≡ M % p ^ suc j)
  decrypt_inner_lem zero i j m t1 t2 y T e h is_m is_y is_t2 is_t1 sums =
      let same : i ≡ j = omega (arith, e) in
      let S = log_sum (p * q) M (suc j) in
      let sums' : (T + S) % p ^ suc j ≡ (M + S) % p ^ suc j =
        ap (λ k. (T + log_sum (p * q) M (suc k)) % p ^ suc j) (sym same)
        ∙ sums
        ∙ ap (λ k. k % p ^ suc j) (swap S M) in
      (
        t1,
        unfold decrypt_inner in refl,
        is_t1 ∙ mod-add_cancel T M S (p ^ suc j) (one-le-pow (suc j) p positive) sums',
      )
    where
      swap : (x y : ℕ) → x + y ≡ y + x
      swap x y = omega arith
  decrypt_inner_lem (suc r) i j m t1 t2 y T e h is_m is_y is_t2 is_t1 sums =
      let k = suc (suc i) in
      let P = p ^ j in
      let large : 0 < P = one-le-pow j p positive in
      let y' = y + (P - 1) in
      let is_m' : mod_ℤ (m -ℤ pos 1) P ≡ y' % P =
        mod_ℤ-sub m 1 y y' P large is_m (less_one P y large) in
      let moved : y' + suc i ≡ y' + 1 + i = omega arith in
      let is_y' : (y' + suc i) % P ≡ M % P =
        ap (λ t. t % P) moved ∙ mod-add_cong (y' + 1) y i i P (less_one P y large) refl ∙ is_y in
      let R = mod_ℤ (t2 *ℤ (m -ℤ pos 1)) (p ^ suc j) in
      let is_R = next_product i j m t2 y' is_m' is_y' is_t2 in
      let (b, found, valid) = key.cells k (suc j) (omega arith) (omega (arith, e)) h in
      let (cell, d, is_b, power, quotient) = cell_of p (p * q) k (suc j) b valid in
      let index : k - 1 ≡ suc i = omega arith in
      let power' = rw index at power in
      let is_term = cell_term p q M i j R cell d is_R power' quotient in
      let is_t1' =
        mod_ℤ-sub t1 (R * cell) T (T + (p ^ suc j - 1) * (R * cell)) (p ^ suc j)
          (one-le-pow (suc j) p positive) is_t1
          (less_by (p ^ suc j) T (R * cell) (one-le-pow (suc j) p positive)) in
      let (result, runs, equal) =
        decrypt_inner_lem r (suc i) j (m -ℤ pos 1) (t1 -ℤ pos (R * cell)) (pos R) y'
          (T + (p ^ suc j - 1) * (R * cell)) (omega (arith, e)) h is_m' is_y' (unfold mod_ℤ in is_R)
          is_t1' (next_sums i j T (R * cell) is_term sums) in
      let after : k + 1 ≡ suc k = omega arith in
      (
        result,
        decrypt_inner_step r k (suc j) cell m t1 t2 (omega (arith, h)) (found ∙ ap ok is_b)
            ∙ ap (λ v. decrypt_inner r v (suc j) c (m -ℤ pos 1) (t1 -ℤ pos (R * cell)) (pos R))
                after
            ∙ runs,
        equal,
      )
