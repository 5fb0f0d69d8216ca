-- ===== src/Crypto/Paillier/Generator/Unit.antt =====
-- The generator of a prime that the search finds: it is prime to the prime where fewer numbers are
-- tried than lie below it.
use native.Mathlib.Nat.{mul-one, add-mul-mod_self_left}
use private_join_and_compute.Prelude.{
  ℕ, zero, suc, ◌+◌, ◌*◌, ◌%◌, ◌<◌, ◌≤◌, ◌≡◌, sym, ap, ◌∙◌, Bool, true, false, arith, ◌⊎◌, inl, inr,
  if◌then◌else◌,
}
use private_join_and_compute.Prelude.Int.{pos}
use private_join_and_compute.Prelude.Mod.{mod-mul_cong}
use private_join_and_compute.Util.Result.{Result, ok, check, >>=-eq-ok}
use private_join_and_compute.Crypto.OpenSsl.{OpenSsl}
use private_join_and_compute.Crypto.OpenSsl.Laws.{BnLaws}
use private_join_and_compute.Crypto.BigNum
use private_join_and_compute.Crypto.BigNum.{BigNum}
use private_join_and_compute.Crypto.BigNum.Laws.{of_u64-ok, add-ok}
use private_join_and_compute.Crypto.Flags.{Flags}
use private_join_and_compute.Crypto.Paillier.Fermat.{IsFieldOrder}
use private_join_and_compute.Crypto.Paillier.Generator.{
  is_rejected, generator_loop, get_generator_for_safe_prime,
  get_generator_of_prime_powers_from_safe_prime,
}

module _ ⦃lib : OpenSsl⦄ (laws : BnLaws lib) where
  branch :
      (rejected : Bool) (again : Result BigNum) (g r : BigNum)
      → (if rejected then again else ok g) ≡ ok r
      → (g ≡ r) ⊎ (again ≡ ok r)
  branch true again g r h = inr h
  branch false again g r h = inl (cc h)

  -- The search from g on ends with a number that is fewer than its rounds above g.
  generator_loop-found :
      (rounds : ℕ) (p q : BigNum) (g : ℕ) (r : BigNum)
      → generator_loop rounds p q (pos g) ≡ ok r
      → (x : ℕ) × (r ≡ pos x) × (g ≤ x) × (x < g + rounds)
  unfolding generator_loop
  generator_loop-found zero p q g r h = cc h
  generator_loop-found (suc rounds) p q g r h =
      let (rejected, tested, after) = >>=-eq-ok (is_rejected p q (pos g)) _ h in
      elim (branch rejected _ (pos g) r after) [
        | inl same ↦ (g, sym same, omega arith, omega arith)
        | inr again ↦
            let (one, made, after₁) = >>=-eq-ok (BigNum.of_u64 1) _ again in
            let (next, added, found) = >>=-eq-ok (BigNum.add (pos g) one) _ after₁ in
            let is_one : one ≡ pos 1 = cc (made, of_u64-ok laws 1 (omega arith)) in
            let is_next : next ≡ pos (g + 1) = cc (added, add-ok laws g 1, is_one) in
            let (x, is_x, above, below) =
              generator_loop-found rounds p q (g + 1) r (rw is_next at found) in
            (x, is_x, omega (arith, above), omega (arith, below))
      ]

  get_generator_for_safe_prime-found :
      (flags : Flags) (p r : BigNum)
      → get_generator_for_safe_prime flags p ≡ ok r
      → (x : ℕ) × (r ≡ pos x) × (2 ≤ x) × (x < 2 + flags.generator_try_count)
  unfolding get_generator_for_safe_prime
  get_generator_for_safe_prime-found flags p r h =
      let (safe, tested, h₁) = >>=-eq-ok (BigNum.is_safe_prime p) _ h in
      let (_, checked, h₂) = >>=-eq-ok (check safe) _ h₁ in
      let (one, is_one, h₃) = >>=-eq-ok (BigNum.of_u64 1) _ h₂ in
      let (difference, subtracted, h₄) = >>=-eq-ok (BigNum.sub p one) _ h₃ in
      let (two, is_two, h₅) = >>=-eq-ok (BigNum.of_u64 2) _ h₄ in
      let (q, divided, h₆) = >>=-eq-ok (BigNum.div difference two) _ h₅ in
      let (start, is_start, h₇) = >>=-eq-ok (BigNum.of_u64 2) _ h₆ in
      let starts : start ≡ pos 2 = cc (is_start, of_u64-ok laws 2 (omega arith)) in
      generator_loop-found flags.generator_try_count p q 2 r (rw starts at h₇)

  power_branch :
      (test : Bool) (b : BigNum) (x p g : ℕ)
      → b ≡ pos x
      → (if test then BigNum.add b (pos p) else ok b) ≡ ok (pos g)
      → g % p ≡ x % p
  power_branch true b x p g is_x h =
      let same : pos g ≡ pos (x + p) = cc (rw is_x at h, add-ok laws x p) in
      let value : g ≡ x + p * 1 = cc (same, mul-one p) in
      ap (λ t. t % p) value ∙ add-mul-mod_self_left x p 1
  power_branch false b x p g is_x h = let value : g ≡ x = cc (h, is_x) in ap (λ t. t % p) value

  -- Where the search tries fewer numbers than lie between 1 and the prime, what it finds has an inverse.
  pub generator-unit :
      (flags : Flags) (p g : ℕ)
      → IsFieldOrder p
      → 1 + flags.generator_try_count < p
      → get_generator_of_prime_powers_from_safe_prime flags (pos p) ≡ ok (pos g)
      → (g' : ℕ) × (g * g' % p ≡ 1 % p)
  unfolding get_generator_of_prime_powers_from_safe_prime IsFieldOrder
  generator-unit flags p g field few h =
      let (b, found, h₁) = >>=-eq-ok (get_generator_for_safe_prime flags (pos p)) _ h in
      let (one, is_one, h₂) = >>=-eq-ok (BigNum.of_u64 1) _ h₁ in
      let (exponent, subtracted, h₃) = >>=-eq-ok (BigNum.sub (pos p) one) _ h₂ in
      let (square, multiplied, h₄) = >>=-eq-ok (BigNum.mul (pos p) (pos p)) _ h₃ in
      let (power, raised, h₅) = >>=-eq-ok (BigNum.mod_exp b exponent square) _ h₄ in
      let (x, is_x, above, below) = get_generator_for_safe_prime-found flags (pos p) b found in
      let same = power_branch (BigNum.is_one power) b x p g is_x h₅ in
      let (x', unit) = field.1 x (omega (arith, above)) (omega (arith, below, few)) in
      (x', mod-mul_cong g x x' p same ∙ unit)
