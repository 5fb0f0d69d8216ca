-- ===== src/Crypto/Paillier/Precomp/Powers.antt =====
-- GetPowers: the powers of a number, each at its own index.
use native.Mathlib.Nat.{pow-zero, pow-suc}
use private_join_and_compute.Prelude.{
  ℕ, zero, suc, ◌+◌, ◌*◌, ◌^◌, ◌<◌, ◌≡◌, refl, sym, ap, ◌∙◌, List, [], ◌∷◌, length, arith,
}
use private_join_and_compute.Prelude.Int.{pos}
use private_join_and_compute.Util.Result.{ok, read_at, ◌>>=◌}
use private_join_and_compute.Crypto.OpenSsl.{OpenSsl}
use private_join_and_compute.Crypto.OpenSsl.Laws.{BnLaws}
use private_join_and_compute.Crypto.BigNum.{BigNum}
use private_join_and_compute.Crypto.BigNum.Laws.{of_u64-ok, mul-ok}
use private_join_and_compute.Crypto.Paillier.Public.{back}
use private_join_and_compute.Crypto.Paillier.Precomp.{powers_loop, get_powers}

-- The powers of n from the exponent i on.
pub power_list : ℕ → ℕ → ℕ → List BigNum
power_list n zero i = []
power_list n (suc rounds) i = pos (n ^ i) ∷ power_list n rounds (suc i)

length-power_list : (n rounds i : ℕ) → length (power_list n rounds i) ≡ rounds
unfolding power_list
length-power_list n zero i = refl
length-power_list n (suc rounds) i = ap suc (length-power_list n rounds (suc i))

pub read_at-power_list :
    (n rounds i k : ℕ) → k < rounds → read_at (power_list n rounds i) k ≡ ok (pos (n ^ (i + k)))
unfolding power_list
read_at-power_list n zero i k h = let no : ⊥ = omega (arith, h) in elim no [ ]
read_at-power_list n (suc rounds) i zero h =
    let e : i ≡ i + 0 = omega arith in ap (λ j. ok (pos (n ^ j))) e
read_at-power_list n (suc rounds) i (suc k) h =
    let e : suc i + k ≡ i + suc k = omega arith in
    read_at-power_list n rounds (suc i) k (omega (arith, h)) ∙ ap (λ j. ok (pos (n ^ j))) e

-- The last power.
pub back_power : (n k i : ℕ) → back (power_list n (suc k) i) ≡ ok (pos (n ^ (i + k)))
unfolding power_list
back_power n zero i = let e : i ≡ i + 0 = omega arith in ap (λ j. ok (pos (n ^ j))) e
back_power n (suc k) i =
    let e : suc i + k ≡ i + suc k = omega arith in
    back_power n k (suc i) ∙ ap (λ j. ok (pos (n ^ j))) e

module _ ⦃lib : OpenSsl⦄ (laws : BnLaws lib) where
  powers_loop-power_list :
      (n rounds i : ℕ) → powers_loop rounds (pos (n ^ i)) (pos n) ≡ ok (power_list n rounds (suc i))
  unfolding powers_loop power_list
  powers_loop-power_list n zero i = refl
  powers_loop-power_list n (suc rounds) i =
      let e : n ^ i * n ≡ n ^ suc i = sym (pow-suc n i) in
      rw (mul-ok laws (n ^ i) n, e, powers_loop-power_list n rounds (suc i))

  pub get_powers-power_list : (n s : ℕ) → get_powers (pos n) s ≡ ok (power_list n (s + 2) 0)
  unfolding get_powers power_list
  get_powers-power_list n s =
      let e : s + 2 ≡ suc (s + 1) = omega arith in
      let one : 1 ≡ n ^ 0 = sym (pow-zero n) in
      let loop : powers_loop (s + 1) (pos 1) (pos n) ≡ ok (power_list n (s + 1) 1) =
        ap (λ v. powers_loop (s + 1) (pos v) (pos n)) one ∙ powers_loop-power_list n (s + 1) 0 in
      rw (of_u64-ok laws 1 (omega arith), e, loop)
        (ap (λ v. ok (pos v ∷ power_list n (s + 1) 1)) one)

  -- GetPowers returns s + 2 numbers, and the one at an index k below s + 2 is the k-th power of its
  -- argument.
  pub get_powers-power :
      (n s k : ℕ)
      → k < s + 2
      → ((get_powers (pos n) s >>= λ powers. ok (length powers)) ≡ ok (s + 2))
        × ((get_powers (pos n) s >>= λ powers. read_at powers k) ≡ ok (pos (n ^ k)))
  get_powers-power n s k h =
      let same : 0 + k ≡ k = omega arith in
      (
        rw (get_powers-power_list n s) (ap ok (length-power_list n (s + 2) 0)),
        rw (get_powers-power_list n s)
            (read_at-power_list n (s + 2) 0 k h ∙ ap (λ j. ok (pos (n ^ j))) same),
      )
