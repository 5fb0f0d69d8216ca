-- ===== src/Data/Random/Values.antt =====
-- The client's values and the sum over the identifiers that both parties hold.
use native.Mathlib.Nat.{add-zero, add_assoc}
use private_join_and_compute.Prelude.{
  ℕ, suc, ◌+◌, ◌-◌, ◌%◌, ◌^◌, ◌<◌, ◌≡◌, refl, ap, Bool, true, false, List, [], ◌∷◌, map, length,
  All, arith, if◌then◌else◌, ltb, leb, Bool-cases, inl, inr,
}
use private_join_and_compute.Prelude.Int.{pos, negsuc, ◌+ℤ◌, mod_ℤ, +ℤ-pos}
use private_join_and_compute.Prelude.Bytes.{Bytes}
use private_join_and_compute.Util.Result.{ok}
use private_join_and_compute.Crypto.OpenSsl.{OpenSsl}
use private_join_and_compute.Crypto.OpenSsl.Laws.{BnLaws}
use private_join_and_compute.Crypto.BigNum
use private_join_and_compute.Crypto.Context.{generate_rand_less_than}
use private_join_and_compute.Data.Random.{
  to_int64, add_int64, set_contains, associated_value, associated_values,
}

-- The sum of the values beside the identifiers that a set contains.
abbrev pub common_sum : List Bytes → List Bytes → List ℕ → ℕ
common_sum server [] vs = 0
common_sum server (x ∷ xs) [] = 0
common_sum server (x ∷ xs) (v ∷ vs) =
    (if set_contains server x then v else 0) + common_sum server xs vs

-- The number of identifiers that a set contains.
abbrev pub common_count : List Bytes → List Bytes → ℕ
common_count server [] = 0
common_count server (x ∷ xs) = (if set_contains server x then 1 else 0) + common_count server xs

pub to_int64-small : (n : ℕ) → n < 2 ^ 63 → to_int64 n ≡ pos n
unfolding to_int64
to_int64-small n h = let e : n % 2 ^ 64 ≡ n = omega (arith, h) in rw e (ground (arith, h))

mod_ℤ-negsuc-add :
    (r b : ℕ) → r < 2 ^ 64 → mod_ℤ (negsuc (2 ^ 64 - 1 - r) +ℤ pos b) (2 ^ 64) ≡ (r + b) % 2 ^ 64
unfolding ◌+ℤ◌ mod_ℤ
mod_ℤ-negsuc-add r b h = elim (Bool-cases (leb (suc (2 ^ 64 - 1 - r) + 0) (0 + b))) [
  | inl e ↦ rw e (ground (arith, e))
  | inr e ↦ rw e (ground (arith, e))
]

mod_ℤ-to_int64-add : (a b : ℕ) → mod_ℤ (to_int64 a +ℤ pos b) (2 ^ 64) ≡ (a + b) % 2 ^ 64
unfolding to_int64
mod_ℤ-to_int64-add a b = elim (Bool-cases (ltb (a % 2 ^ 64) (2 ^ 63))) [
  | inl e ↦ rw (e, +ℤ-pos (a % 2 ^ 64) b) (unfold mod_ℤ in omega arith)
  | inr e ↦ rw (e, mod_ℤ-negsuc-add (a % 2 ^ 64) b (omega arith)) (omega arith)
]

to_int64-mod : (n : ℕ) → to_int64 (n % 2 ^ 64) ≡ to_int64 n
unfolding to_int64
to_int64-mod n = let e : n % 2 ^ 64 % 2 ^ 64 ≡ n % 2 ^ 64 = omega arith in rw e refl

add_int64-to_int64 : (a b : ℕ) → add_int64 (to_int64 a) (pos b) ≡ to_int64 (a + b)
unfolding add_int64
add_int64-to_int64 a b = rw (mod_ℤ-to_int64-add a b) (to_int64-mod (a + b))

step_sum :
    (n v : ℕ) (b : Bool)
    → (if b then add_int64 (to_int64 n) (pos v) else to_int64 n)
      ≡ to_int64 (n + (if b then v else 0))
step_sum n v true = add_int64-to_int64 n v
step_sum n v false = rw add-zero refl

module _ ⦃lib : OpenSsl⦄ (bn : BnLaws lib) where
  associated_value-small :
      (m : ℕ) (g : lib.Rng)
      → 0 < m
      → m < 2 ^ 63
      → (v : ℕ) × (h : lib.Rng) × (associated_value (pos m) g ≡ (ok (pos v), h)) × (v < m)
  unfolding associated_value generate_rand_less_than BigNum.to_int_value
  associated_value-small m g h small =
      let (v, g', drawn, lt) = bn.rand_range_lem m g h in
      (
        v,
        g',
        rw
            (
              drawn,
              bn.get_u64 v (omega (arith, lt, small)),
              to_int64-small v (omega (arith, lt, small)),
            )
            refl,
        lt,
      )

  -- The values are below the bound, one for each identifier, and the sum is the wrapped sum of those
  -- beside the server's identifiers.
  pub associated_values_lem :
      (m : ℕ) (server client : List Bytes) (n : ℕ) (g : lib.Rng)
      → 0 < m
      → m < 2 ^ 63
      → (vs : List ℕ) × (h : lib.Rng) × (associated_values (pos m) server client (to_int64 n) g
          ≡ (ok (map pos vs, to_int64 (n + common_sum server client vs)), h))
        × (length vs ≡ length client)
        × All (λ v. v < m) vs
  unfolding associated_values
  associated_values_lem m server [] n g h small = ([], g, rw add-zero refl, refl, tt)
  associated_values_lem m server (x ∷ xs) n g h small =
      let (v, g₁, drawn, lt) = associated_value-small m g h small in
      let next = n + (if set_contains server x then v else 0) in
      let (vs, g₂, rest, len, below) = associated_values_lem m server xs next g₁ h small in
      (
        v ∷ vs,
        g₂,
        rw (drawn, step_sum n v (set_contains server x), rest)
            (rw (add_assoc n (if set_contains server x then v else 0) (common_sum server xs vs))
              refl),
        ap suc len,
        (lt, below),
      )
