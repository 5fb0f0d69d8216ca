-- ===== src/Crypto/Paillier/Precomp/Cell.antt =====
-- GetDecryptPrecomp: the number in a cell of its table.
use native.Mathlib.Nat.{mod-mod, pow-suc}
use private_join_and_compute.Prelude.{ℕ, suc, ◌-◌, ◌*◌, ◌%◌, ◌^◌, ◌≡◌, refl, sym, ap, ◌∙◌, arith}
use private_join_and_compute.Prelude.Int.{pos}
use private_join_and_compute.Prelude.Mod.{mod-mul_both, mod_cong_down}
use private_join_and_compute.Crypto.BigNum.{BigNum}
use private_join_and_compute.Crypto.Paillier.Binomial.{factorial}

-- What belongs into the cell (k, j): the power k - 1 of n over the factorial of k, modulo the power j of p.
pub IsCell : ℕ → ℕ → ℕ → ℕ → BigNum → Type 0
IsCell p n k j b =
    (c d : ℕ) × (b ≡ pos c)
    × (c % p ^ j ≡ n ^ (k - 1) * d % p ^ j)
    × (d * factorial k % p ^ j ≡ 1 % p ^ j)

-- The cell on the left holds the remainder.
pub IsCell-left :
    (p n k j c d : ℕ)
    → c % p ^ suc j ≡ n ^ (k - 1) * d % p ^ suc j
    → d * factorial k % p ^ suc j ≡ 1 % p ^ suc j
    → IsCell p n k j (pos (c % p ^ j))
unfolding IsCell
IsCell-left p n k j c d e f =
    let split = pow-suc p j in
    (
      c % p ^ j,
      d,
      refl,
      mod-mod c (p ^ j) ∙ mod_cong_down c (n ^ (k - 1) * d) (p ^ j) p (rw split at e),
      mod_cong_down (d * factorial k) 1 (p ^ j) p (rw split at f),
    )

pub cell_of :
    (p n k j : ℕ) (b : BigNum)
    → IsCell p n k j b
    → (c d : ℕ) × (b ≡ pos c)
      × (c % p ^ j ≡ n ^ (k - 1) * d % p ^ j)
      × (d * factorial k % p ^ j ≡ 1 % p ^ j)
unfolding IsCell
cell_of p n k j b cell = cell

-- The last cell of a row, from the list of GetPrecomp.
pub IsCell-last :
    (p n i s c d r : ℕ)
    → c % p ^ suc s ≡ n ^ i * d % p ^ suc s
    → d * factorial i % p ^ suc s ≡ 1 % p ^ suc s
    → suc i * r % p ^ s ≡ 1 % p ^ s
    → IsCell p n (suc i) s (pos (r * c % p ^ s))
unfolding IsCell factorial
IsCell-last p n i s c d r e f g =
    let split = pow-suc p s in
    let P = p ^ s in
    let e' = mod_cong_down c (n ^ i * d) P p (rw split at e) in
    let f' = mod_cong_down (d * factorial i) 1 P p (rw split at f) in
    let same : suc i - 1 ≡ i = omega arith in
    (
      r * c % P,
      r * d,
      refl,
      mod-mod (r * c) P
          ∙ mod-mul_both r r c (n ^ i * d) P refl e'
          ∙ ap (λ x. x % P) (shuffle_power r (n ^ i) d)
          ∙ ap (λ k. n ^ k * (r * d) % P) (sym same),
      ap (λ x. x % P) (shuffle_factorial r d (factorial i) i)
          ∙ mod-mul_both (d * factorial i) 1 (suc i * r) 1 P f' g,
    )
  where
    shuffle_power : (r x d : ℕ) → r * (x * d) ≡ x * (r * d)
    shuffle_power r x d = omega arith

    shuffle_factorial : (r d f i : ℕ) → r * d * (f * suc i) ≡ d * f * (suc i * r)
    shuffle_factorial r d f i = omega arith
