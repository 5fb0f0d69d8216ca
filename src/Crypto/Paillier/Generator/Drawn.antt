-- ===== src/Crypto/Paillier/Generator/Drawn.antt =====
-- The generator that is drawn for the public key: it is prime to the product of the primes.
use native.Mathlib.Nat.{
  mul-zero, mul_comm, mul-pos, mod-lt, mod-mod, add-mul-mod_self_left, div-add-mod,
}
use private_join_and_compute.Prelude.{
  ℕ, zero, suc, ◌+◌, ◌-◌, ◌*◌, ◌/◌, ◌%◌, ◌<◌, ◌≤◌, ◌≡◌, refl, sym, ap, ◌∙◌, Bool, true, false,
  arith, ◌⊎◌, inl, inr, if◌then◌else◌, ltb,
}
use private_join_and_compute.Prelude.Int.{pos}
use private_join_and_compute.Prelude.Mod.{mod-mul_both, mod-mul_left}
use private_join_and_compute.Util.Result.{ok, ◌>>=◌}
use private_join_and_compute.Util.Exec.{continue-ok, Exec, pure}
use private_join_and_compute.Crypto.OpenSsl.{OpenSsl}
use private_join_and_compute.Crypto.OpenSsl.Laws.{BnLaws}
use private_join_and_compute.Crypto.BigNum
use private_join_and_compute.Crypto.BigNum.{BigNum}
use private_join_and_compute.Crypto.BigNum.Laws.{of_u64-ok, sub-ok, mod_sqr-ok, gt_lem}
use private_join_and_compute.Crypto.Context.{
  relatively_prime_random_less_than, generate_rand_less_than,
}
use private_join_and_compute.Crypto.Paillier.Fermat.{IsFieldOrder}
use private_join_and_compute.Crypto.Paillier.Coprime.{crt_unit}
use private_join_and_compute.Crypto.Paillier.Generator.{get_generator_for_safe_modulus}

-- No number above 1 divides both.
pub IsPrimeTo : ℕ → ℕ → Type 0
IsPrimeTo a b = (e k l : ℕ) → 1 < e → a ≡ e * k → b ≡ e * l → ⊥

-- What a field order does not divide has an inverse.
unit_of : (p x : ℕ) → IsFieldOrder p → ((k : ℕ) → x ≡ p * k → ⊥) → (v : ℕ) × (x * v % p ≡ 1 % p)
unfolding IsFieldOrder
unit_of p x field apart =
    let split : p * (x / p) + x % p ≡ x = div-add-mod x p in
    let positive : 0 < x % p = above (x % p) (λ none.
      apart (x / p) (sym split ∙ ap (λ t. p * (x / p) + t) none ∙ no_more (p * (x / p)))) in
    let large : 0 < p = omega (arith, field.0) in
    let (v, e) = field.1 (x % p) positive (mod-lt x large) in (v, sym (mod-mul_left x v p) ∙ e)
  where
    no_more : (x : ℕ) → x + 0 ≡ x
    no_more x = omega arith

    above : (t : ℕ) → (t ≡ 0 → ⊥) → 0 < t
    above zero h = elim (h refl) [ ]
    above (suc t) h = omega arith

-- The complements of two numbers multiply as the numbers do.
complement-mul : (n s t : ℕ) → s ≤ n → t ≤ n → (n - s) * (n - t) % n ≡ s * t % n
complement-mul n s t h k =
    let a = n - s in
    let b = n - t in
    let first : a + s ≡ n = omega (arith, h) in
    let second : b + t ≡ n = omega (arith, k) in
    let split : a * b + n * s ≡ s * t + n * b =
      ap (λ x. a * b + x * s) (sym second) ∙ regroup a b s t ∙ ap (λ x. s * t + x * b) first in
    sym (add-mul-mod_self_left (a * b) n s)
    ∙ ap (λ x. x % n) split
    ∙ add-mul-mod_self_left (s * t) n b
  where
    regroup : (a b s t : ℕ) → a * b + (b + t) * s ≡ s * t + (a + s) * b
    regroup a b s t = omega arith

no_factor : (d e j : ℕ) → 0 < d → d ≤ 1 → 1 < e → d ≡ e * j → ⊥
no_factor d e zero h k l f = let none : d ≡ 0 = f ∙ mul-zero e in omega (arith, none, h)
no_factor d e (suc j) h k l f =
    let above : d ≡ e + e * j = f ∙ spread e j in omega (arith, above, k, l)
  where
    spread : (e j : ℕ) → e * suc j ≡ e + e * j
    spread e j = omega arith

module _ ⦃lib : OpenSsl⦄ (laws : BnLaws lib) where
  prime_branch :
      (test : Bool) (again : Exec lib.Rng BigNum) (x : BigNum) (y : BigNum) (g g' : lib.Rng)
      → (if test then again else pure x) g ≡ (ok y, g')
      → ((test ≡ false) × (x ≡ y)) ⊎ (again g ≡ (ok y, g'))
  prime_branch true again x y g g' h = inr h
  prime_branch false again x y g g' h = inl (refl, cc h)

  at_most_one : (d : ℕ) → BigNum.gt (pos d) (pos 1) ≡ false → d ≤ 1
  at_most_one d h =
      let e : ltb (1 + 0) (d + 0) ≡ false = sym (gt_lem laws (pos d) (pos 1)) ∙ h in
      ground (arith, e)

  -- The loop ends with a number that is prime to its bound.
  relatively_prime-found :
      (fuel n : ℕ) (y : BigNum) (g g' : lib.Rng)
      → 0 < n
      → relatively_prime_random_less_than fuel (pos n) g ≡ (ok y, g')
      → (x : ℕ) × (y ≡ pos x) × IsPrimeTo x n
  unfolding relatively_prime_random_less_than generate_rand_less_than BigNum.gcd IsPrimeTo
  relatively_prime-found zero n y g g' positive h = absurd (cc)
  relatively_prime-found (suc fuel) n y g g' positive h =
      let (x, g₁, draws, below) = laws.rand_range_lem n g positive in
      let (d, found, some_d, greatest) = laws.gcd_lem x n positive in
      let h₁ = rw (draws, found, of_u64-ok laws 1 (omega arith)) at h in
      elim (prime_branch (BigNum.gt (pos d) (pos 1)) _ (pos x) y g₁ g' h₁) [
        | inl (refused, same) ↦
            let small : d ≤ 1 = at_most_one d refused in
            (
              x,
              sym same,
              λ e k l some_e ek el.
                  let (j, divides) = greatest e k l ek el in
                  no_factor d e j some_d small some_e divides,
            )
        | inr again ↦ relatively_prime-found fuel n y g₁ g' positive again
      ]

  square_step :
      (n x u : ℕ) (b : BigNum)
      → 0 < n
      → b ≡ pos x
      → (BigNum.mod_sqr b (pos n) >>= λ square. BigNum.sub (pos n) square) ≡ ok (pos u)
      → u ≡ n - x * x % n
  square_step n x u b positive is_x h =
      let below : x * x % n ≤ n = omega (arith, mod-lt (x * x) positive) in
      let squared = rw (is_x, mod_sqr-ok laws x n positive) at h in
      cc (squared, sub-ok laws n (x * x % n) below)

  -- Where p and q are primes and p does not divide q, the number that is drawn for n = p * q has an
  -- inverse modulo n.
  pub drawn-unit :
      (fuel p q e u : ℕ) (g g' : lib.Rng)
      → IsFieldOrder p
      → IsFieldOrder q
      → p * e % q ≡ 1 % q
      → get_generator_for_safe_modulus fuel (pos (p * q)) g ≡ (ok (pos u), g')
      → (u' : ℕ) × (u * u' % (p * q) ≡ 1 % (p * q))
  unfolding get_generator_for_safe_modulus IsFieldOrder IsPrimeTo
  drawn-unit fuel p q e u g g' field_p field_q apart h =
      let n = p * q in
      let positive : 0 < n = mul-pos (omega (arith, field_p.0)) (omega (arith, field_q.0)) in
      let (b, found, after) =
        continue-ok (relatively_prime_random_less_than fuel (pos n) g).0 _ _ g' h in
      let (x, is_x, prime_to) =
        relatively_prime-found fuel n b g _ positive
          (ap (λ r. (r, (relatively_prime_random_less_than fuel (pos n) g).1)) found) in
      let (v, on_p) = unit_of p x field_p (λ k ek. prime_to p k q field_p.0 ek refl) in
      let (w, on_q) = unit_of q x field_q (λ k ek. prime_to q k p field_q.0 ek (mul_comm p q)) in
      let (y, unit) = crt_unit p q e x v w positive apart on_p on_q in
      let S = x * x % n in
      let T = y * y % n in
      let value : u ≡ n - S = square_step n x u b positive is_x (ap (λ r. r.0) after) in
      let small_s : S ≤ n = omega (arith, mod-lt (x * x) positive) in
      let small_t : T ≤ n = omega (arith, mod-lt (y * y) positive) in
      (
        n - T,
        ap (λ t. t * (n - T) % n) value
            ∙ complement-mul n S T small_s small_t
            ∙ mod-mul_both S (x * x) T (y * y) n (mod-mod (x * x) n) (mod-mod (y * y) n)
            ∙ ap (λ t. t % n) (regroup x y)
            ∙ mod-mul_both (x * y) 1 (x * y) 1 n unit unit,
      )
    where
      regroup : (x y : ℕ) → x * x * (y * y) ≡ x * y * (x * y)
      regroup x y = omega arith
