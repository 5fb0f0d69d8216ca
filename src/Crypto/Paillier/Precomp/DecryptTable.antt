-- ===== src/Crypto/Paillier/Precomp/DecryptTable.antt =====
-- GetDecryptPrecomp: the table holds the powers of n over the factorials, modulo the powers of p.
use native.Mathlib.Nat.{one-le-pow}
use private_join_and_compute.Prelude.{
  ℕ, zero, suc, ◌+◌, ◌-◌, ◌*◌, ◌%◌, ◌^◌, ◌<◌, ◌≤◌, ◌≡◌, refl, sym, ◌∙◌, subst, List, arith, leb,
  ◌==◌, Bool-cases, inl, inr,
}
use private_join_and_compute.Prelude.Int.{pos}
use private_join_and_compute.Util.Result.{ok}
use private_join_and_compute.Crypto.OpenSsl.{OpenSsl}
use private_join_and_compute.Crypto.OpenSsl.Laws.{BnLaws}
use private_join_and_compute.Crypto.BigNum.{BigNum}
use private_join_and_compute.Crypto.BigNum.Laws.{of_u64-ok, mod_mul-ok, mod_by-ok, mod_inverse-ok}
use private_join_and_compute.Crypto.Paillier.Table.{BigNumTable, make_table, insert, get}
use private_join_and_compute.Crypto.Paillier.Table.Laws.{
  Has, Kept, Kept-Has, Kept-Kept, Kept-refl, Kept-column_length, IsSound-make_table, IsSound,
  get_lem, insert_lem,
}
use private_join_and_compute.Crypto.Paillier.Precomp.{
  decrypt_row, decrypt_rows, get_decrypt_precomp,
}
use private_join_and_compute.Crypto.Paillier.Precomp.Expansion.{IsExpanding}
use private_join_and_compute.Crypto.Paillier.Precomp.Cell.{
  IsCell, IsCell-left, cell_of, IsCell-last,
}

module _ ⦃lib : OpenSsl⦄ (laws : BnLaws lib) (p q s : ℕ) (precomp powers : List BigNum)
    (lists : IsExpanding laws p q s precomp powers) (positive : 0 < p) where
  abbrev Sound : BigNumTable → Type 0
  Sound t = IsSound (IsCell p (p * q)) t

  decrypt_row_step :
      (r k : ℕ) (t t₁ : BigNumTable) (b : BigNum) (c : ℕ)
      → k + r ≤ suc s
      → get t k (suc (k + r)) ≡ ok b
      → b ≡ pos c
      → insert t k (k + r) (pos (c % p ^ (k + r))) ≡ ok t₁
      → decrypt_row (suc r) k powers t ≡ decrypt_row r k powers t₁
  unfolding decrypt_row
  decrypt_row_step r k t t₁ b c h found is_c inserted =
      let j = k + r in
      let next_j : j + 1 ≡ suc j = omega arith in
      rw
        (
          next_j,
          found,
          lists.powers_lem j h,
          is_c,
          mod_by-ok laws c (p ^ j) (one-le-pow j p positive),
          inserted,
        )
        refl

  decrypt_row_lem :
      (rounds k : ℕ) (t : BigNumTable)
      → t.column_length ≡ suc s
      → k + rounds ≤ s
      → Sound t
      → Has t k (k + rounds)
      → (t' : BigNumTable) × (decrypt_row rounds k powers t ≡ ok t')
        × Sound t'
        × Kept t t'
        × ((j : ℕ) → k ≤ j → j ≤ k + rounds → Has t' k j)
  unfolding decrypt_row
  decrypt_row_lem zero k t size h sound has = (
    t,
    refl,
    sound,
    Kept-refl t,
    λ j low high.
        let same : k + 0 ≡ j = omega (arith, low, high) in subst (λ i. Has t k i) same has,
  )
  decrypt_row_lem (suc r) k t size h sound has =
      let j = k + r in
      let next_j : k + suc r ≡ suc j = omega arith in
      let has' = subst (λ i. Has t k i) next_j has in
      let inside : suc j < t.column_length = omega (arith, size, h) in
      let (b, found, valid) = get_lem (IsCell p (p * q)) t k (suc j) inside sound has' in
      let (c, d, is_c, e, f) = cell_of p (p * q) k (suc j) b valid in
      let left = IsCell-left p (p * q) k j c d e f in
      let (t₁, inserted, sound₁, kept₁, has₁) =
        insert_lem (IsCell p (p * q)) t k j (pos (c % p ^ j)) (omega (arith, size, h)) sound left in
      let (t₂, runs, sound₂, kept₂, all₂) =
        decrypt_row_lem r k t₁ (Kept-column_length t t₁ kept₁ ∙ size) (omega (arith, h)) sound₁
          has₁ in
      (
        t₂,
        decrypt_row_step r k t t₁ b c (omega (arith, h)) found is_c inserted ∙ runs,
        sound₂,
        Kept-Kept t t₁ t₂ kept₁ kept₂,
        λ i low high. elim (Bool-cases (leb i j)) [
          | inl e ↦ all₂ i low (ground (arith, e))
          | inr e ↦
              let last : k + suc r ≡ i = ground (arith, e, high) in
              subst (λ v. Has t₂ k v) last
                (Kept-Has t t₂ k (k + suc r) (Kept-Kept t t₁ t₂ kept₁ kept₂) has)
        ],
      )

  decrypt_rows_lem :
      ((j : ℕ) → 0 < j → j ≤ s → (v : ℕ) × (j * v % p ^ s ≡ 1 % p ^ s))
      → s < 2 ^ 64
      → (rounds i : ℕ) (t : BigNumTable) → 0 < i
      → t.column_length ≡ suc s
      → rounds + i ≡ s
      → Sound t
      → (t' : BigNumTable) × (decrypt_rows rounds (suc i) precomp powers s t ≡ ok t')
        × Sound t'
        × Kept t t'
        × ((k j : ℕ) → suc i ≤ k → k ≤ j → j ≤ s → Has t' k j)
  unfolding decrypt_rows
  decrypt_rows_lem units small zero i t above size h sound = (
    t,
    refl,
    sound,
    Kept-refl t,
    λ k j low high below. let no : ⊥ = omega (arith, h, low, high, below) in elim no [ ],
  )
  decrypt_rows_lem units small (suc r) i t above size h sound =
      let (v, unit) = units (suc i) (omega arith) (omega (arith, h)) in
      let P = p ^ s in
      let large : 0 < P = one-le-pow s p positive in
      let (inv, found, _, inverts) = mod_inverse-ok laws (suc i) P v large unit in
      let (c, d, listed, power, quotient) = lists.precomp_lem i above (omega (arith, h)) in
      let cell = inv * c % P in
      let valid = IsCell-last p (p * q) i s c d inv power quotient inverts in
      let (t₁, inserted, sound₁, kept₁, has₁) =
        insert_lem (IsCell p (p * q)) t (suc i) s (pos cell) (omega (arith, size)) sound valid in
      let width : suc i + (s - suc i) ≡ s = omega (arith, h) in
      let (t₂, row, sound₂, kept₂, all₂) =
        decrypt_row_lem (s - suc i) (suc i) t₁ (Kept-column_length t t₁ kept₁ ∙ size)
          (omega (arith, width)) sound₁ (subst (λ j. Has t₁ (suc i) j) (sym width) has₁) in
      let (t₃, runs, sound₃, kept₃, all₃) =
        decrypt_rows_lem units small r (suc i) t₂ (omega arith)
          (Kept-column_length t₁ t₂ kept₂ ∙ Kept-column_length t t₁ kept₁ ∙ size) (omega (arith, h))
          sound₂ in
      let index : suc i - 1 ≡ i = omega arith in
      let after : suc i + 1 ≡ suc (suc i) = omega arith in
      (
        t₃,
        rw
            (
              lists.powers_lem s (omega arith),
              of_u64-ok laws (suc i) (omega (arith, h, small)),
              found,
              index,
              listed,
              mod_mul-ok laws inv c P large,
              inserted,
              row,
              after,
            )
            runs,
        sound₃,
        Kept-Kept t t₁ t₃ kept₁ (Kept-Kept t₁ t₂ t₃ kept₂ kept₃),
        λ k j low high below. elim (Bool-cases (k == suc i)) [
          | inl e ↦
              let same : suc i ≡ k = ground (arith, e) in
              Kept-Has t₂ t₃ k j kept₃ (
                subst (λ x. Has t₂ x j) same
                  (all₂ j (omega (arith, same, high)) (omega (arith, width, below))))
          | inr e ↦ all₃ k j (ground (arith, e, low)) high below
        ],
      )

  -- For s from 1 on, the table of GetDecryptPrecomp has all the cells (k, j) with 2 <= k <= j <= s, each with
  -- what belongs there.
  pub get_decrypt_precomp_lem :
      ((j : ℕ) → 0 < j → j ≤ s → (v : ℕ) × (j * v % p ^ s ≡ 1 % p ^ s))
      → s < 2 ^ 64
      → 0 < s
      → (t : BigNumTable) × (get_decrypt_precomp precomp powers s ≡ ok t)
        × ((k j : ℕ)
            → 2 ≤ k
            → k ≤ j
            → j ≤ s
            → (b : BigNum) × (get t k j ≡ ok b) × IsCell p (p * q) k j b)
  unfolding get_decrypt_precomp make_table
  get_decrypt_precomp_lem units small above =
      let size : s + 1 ≡ suc s = omega arith in
      let empty = make_table (s + 1) in
      let (t, runs, sound, kept, all) =
        decrypt_rows_lem units small (s - 1) 1 empty (omega arith) size (omega (arith, above))
          (IsSound-make_table (IsCell p (p * q)) (s + 1)) in
      (
        t,
        runs,
        λ k j low high below.
            get_lem (IsCell p (p * q)) t k j
              (let wide = Kept-column_length empty t kept ∙ size in omega (arith, wide, below))
              sound (all k j low high below),
      )
