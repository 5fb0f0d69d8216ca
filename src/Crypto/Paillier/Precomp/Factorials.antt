-- ===== src/Crypto/Paillier/Precomp/Factorials.antt =====
-- GetPrecomp: the powers of n over the factorials, and the expansion computed with them.
use native.Mathlib.Nat.{one-le-pow, mod-mod, pow-suc, pow-zero}
use private_join_and_compute.Prelude.{
  ℕ, zero, suc, ◌+◌, ◌*◌, ◌%◌, ◌^◌, ◌<◌, ◌≤◌, ◌≡◌, refl, sym, ap, ◌∙◌, subst, List, [], ◌∷◌, length,
  arith,
}
use private_join_and_compute.Prelude.Int.{pos}
use private_join_and_compute.Prelude.Mod.{mod-mul_right, mod-mul_cong}
use private_join_and_compute.Util.Result.{ok, ◌>>=◌, read_at}
use private_join_and_compute.Crypto.OpenSsl.{OpenSsl}
use private_join_and_compute.Crypto.OpenSsl.Laws.{BnLaws}
use private_join_and_compute.Crypto.BigNum.{BigNum}
use private_join_and_compute.Crypto.BigNum.Laws.{of_u64-ok, mod_mul-ok, mod_inverse-ok}
use private_join_and_compute.Crypto.Paillier.Binomial.{factorial}
use private_join_and_compute.Crypto.Paillier.Precomp.{
  precomp_loop, get_precomp, get_powers, compute_by_binomial_expansion,
}
use private_join_and_compute.Crypto.Paillier.Precomp.Powers.{
  power_list, get_powers-power_list, read_at-power_list,
}
use private_join_and_compute.Crypto.Paillier.Precomp.Expansion.{
  IsExpanding, compute_by_binomial_expansion-pow,
}

-- The list holds at the index k the power j of n over the factorial of j, modulo M.
Entry : ℕ → ℕ → List BigNum → ℕ → ℕ → Type 0
Entry n M l k j =
    (c d : ℕ) × (read_at l k ≡ ok (pos c)) × (c % M ≡ n ^ j * d % M) × (d * factorial j % M ≡ 1 % M)

next-power :
    (n M i last d r : ℕ)
    → last % M ≡ n ^ i * d % M
    → last * (r * n % M) % M % M ≡ n ^ suc i * (d * r) % M
next-power n M i last d r e =
    mod-mod (last * (r * n % M)) M
    ∙ mod-mul_right last (r * n) M
    ∙ mod-mul_cong last (n ^ i * d) (r * n) M e
    ∙ ap (λ x. x % M) (shuffle (n ^ i) d r n ∙ ap (λ x. x * (d * r)) (sym (pow-suc n i)))
  where
    shuffle : (p d r n : ℕ) → p * d * (r * n) ≡ p * n * (d * r)
    shuffle p d r n = omega arith

next-factorial :
    (M i d r : ℕ)
    → d * factorial i % M ≡ 1 % M
    → suc i * r % M ≡ 1 % M
    → d * r * factorial (suc i) % M ≡ 1 % M
unfolding factorial
next-factorial M i d r e f =
    ap (λ x. x % M) (shuffle d r (factorial i) i)
    ∙ mod-mul_cong (d * factorial i) 1 (suc i * r) M e
    ∙ ap (λ x. x % M) (one_times (suc i * r))
    ∙ f
  where
    shuffle : (d r g i : ℕ) → d * r * (g * suc i) ≡ d * g * (suc i * r)
    shuffle d r g i = omega arith

    one_times : (x : ℕ) → 1 * x ≡ x
    one_times x = omega arith

Entry-cons :
    (n M i rounds : ℕ) (b : BigNum) (l : List BigNum)
    → Entry n M (b ∷ l) 0 (suc i)
    → ((k : ℕ) → k < rounds → Entry n M l k (suc (suc i) + k))
    → (k : ℕ) → k < suc rounds
    → Entry n M (b ∷ l) k (suc i + k)
unfolding Entry
Entry-cons n M i rounds b l first rest zero h =
    let same : suc i ≡ suc i + 0 = omega arith in subst (λ j. Entry n M (b ∷ l) 0 j) same first
Entry-cons n M i rounds b l first rest (suc k) h =
    let same : suc (suc i) + k ≡ suc i + suc k = omega arith in
    subst (λ j. Entry n M l k j) same (rest k (omega (arith, h)))

module _ ⦃lib : OpenSsl⦄ (laws : BnLaws lib) (n M s : ℕ) where
  precomp_loop_lem :
      ((j : ℕ) → 0 < j → j ≤ s → (b : ℕ) × (j * b % M ≡ 1 % M))
      → 0 < M
      → s < 2 ^ 64
      → (rounds i last d : ℕ) → rounds + i ≡ s
      → last % M ≡ n ^ i * d % M
      → d * factorial i % M ≡ 1 % M
      → (l : List BigNum) × (precomp_loop rounds (suc i) (pos last) (pos n) (pos M) ≡ ok l)
        × (length l ≡ rounds)
        × ((k : ℕ) → k < rounds → Entry n M l k (suc i + k))
  unfolding precomp_loop Entry
  precomp_loop_lem units positive small zero i last d e f g =
      ([], refl, refl, λ k h. let no : ⊥ = omega (arith, h) in elim no [ ])
  precomp_loop_lem units positive small (suc rounds) i last d e f g =
      let (b, unit) = units (suc i) (omega arith) (omega (arith, e)) in
      let (r, found, below, inverts) = mod_inverse-ok laws (suc i) M b positive unit in
      let next = last * (r * n % M) % M in
      let power = next-power n M i last d r f in
      let quotient = next-factorial M i d r g inverts in
      let (l, runs, size, entries) =
        precomp_loop_lem units positive small rounds (suc i) next (d * r) (omega (arith, e)) power
          quotient in
      let after : suc i + 1 ≡ suc (suc i) = omega arith in
      (
        pos next ∷ l,
        rw
            (
              of_u64-ok laws (suc i) (omega (arith, e, small)),
              found,
              mod_mul-ok laws r n M positive,
              mod_mul-ok laws last (r * n % M) M positive,
              after,
              runs,
            )
            refl,
        ap suc size,
        Entry-cons n M i rounds (pos next) l (next, d * r, refl, power, quotient) entries,
      )

read-Entry :
    (n M s : ℕ) (l : List BigNum)
    → ((k : ℕ) → k < s → Entry n M l k (1 + k))
    → (j : ℕ) → 0 < j
    → j ≤ s
    → Entry n M (pos 1 ∷ l) j j
unfolding Entry
read-Entry n M s l entries zero h g = let no : ⊥ = omega (arith, h) in elim no [ ]
read-Entry n M s l entries (suc j) h g =
    let same : 1 + j ≡ suc j = omega arith in
    subst (λ k. Entry n M l j k) same (entries j (omega (arith, g)))

module _ ⦃lib : OpenSsl⦄ (laws : BnLaws lib) where
  -- GetPrecomp for n = b * w and the power s + 1 of b makes the list that the expansion asks for.
  pub get_precomp-IsExpanding :
      (b w s : ℕ)
      → 0 < b
      → s < 2 ^ 64
      → ((j : ℕ) → 0 < j → j ≤ s → (v : ℕ) × (j * v % b ^ suc s ≡ 1 % b ^ suc s))
      → (l : List BigNum) × (get_precomp (pos (b * w)) (pos (b ^ suc s)) s ≡ ok l)
        × IsExpanding laws b w s l (power_list b (s + 2) 0)
  unfolding get_precomp Entry
  get_precomp-IsExpanding b w s positive small units =
      let M = b ^ suc s in
      let n = b * w in
      let above : 0 < M = one-le-pow (suc s) b positive in
      let start : 1 % M ≡ n ^ 0 * 1 % M = rw (pow-zero n) refl in
      let start_factorial : 1 * factorial 0 % M ≡ 1 % M = unfold factorial in refl in
      let (l, runs, size, entries) =
        precomp_loop_lem laws n M s units above small s 0 1 1 (omega arith) start start_factorial in
      (
        pos 1 ∷ l,
        rw (of_u64-ok laws 1 (omega arith), runs) refl,
        record {
          size = ap suc size;
          powers_lem = λ k h.
              let same : 0 + k ≡ k = omega arith in
              read_at-power_list b (s + 2) 0 k (omega (arith, h)) ∙ ap (λ j. ok (pos (b ^ j))) same;
          precomp_lem = read-Entry n M s l entries;
        },
      )

  -- With the lists that GetPowers and GetPrecomp make for n and the power s + 1 of n,
  -- ComputeByBinomialExpansion returns, modulo that power, 1 + n to the power of the message reduced modulo
  -- the power s of n. The numbers from 1 to s have inverses modulo the power s + 1 of n, and s has at most
  -- 64 bits.
  pub compute_by_binomial_expansion-get_precomp :
      (n s message : ℕ)
      → 0 < n
      → s < 2 ^ 64
      → ((j : ℕ) → 0 < j → j ≤ s → (b : ℕ) × (j * b % n ^ suc s ≡ 1 % n ^ suc s))
      → (result : ℕ) × ((get_powers (pos n) s >>= λ powers.
            get_precomp (pos n) (pos (n ^ suc s)) s >>= λ precomp.
            compute_by_binomial_expansion precomp powers (pos message))
          ≡ ok (pos result))
        × (result % n ^ suc s ≡ (1 + n) ^ (message % n ^ s) % n ^ suc s)
  compute_by_binomial_expansion-get_precomp n s message positive small units =
      let whole : n * 1 ≡ n = omega arith in
      let (l, made, table) = get_precomp-IsExpanding n 1 s positive small units in
      let (result, computed, equal) =
        compute_by_binomial_expansion-pow laws n 1 s l (power_list n (s + 2) 0) table message
          positive small in
      (result, rw (get_powers-power_list laws n s, rw whole at made) computed, rw whole at equal)
