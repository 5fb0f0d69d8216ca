-- ===== src/Data/Random/Rejected.antt =====
-- The sizes that GenerateRandomDatabases turns down.
use Prim.Native.String.{String}
use private_join_and_compute.Prelude.{
  ℕ, ◌*◌, ◌^◌, ◌≡◌, refl, true, false, ◌||◌, arith, ltb, Bool-cases, inl, inr,
}
use private_join_and_compute.Prelude.Int.{ℤ, pos, negsuc, ltb_ℤ}
use private_join_and_compute.Util.Status.{invalid_argument_error}
use private_join_and_compute.Util.Result.{err}
use private_join_and_compute.Crypto.OpenSsl.{OpenSsl}
use private_join_and_compute.Data.Random.Accepted.{IsAccepted, quotient_test-true}
use private_join_and_compute.Data.Random.{Entropy, generate_random_databases}

-- None is negative, and they are accepted.
abbrev pub AreAccepted : ℤ → ℤ → ℤ → ℤ → Type 0
AreAccepted (pos s) (pos c) (pos i) (pos m) = IsAccepted s c i m
AreAccepted (negsuc s) c i m = ⊥
AreAccepted s (negsuc c) i m = ⊥
AreAccepted s c (negsuc i) m = ⊥
AreAccepted s c i (negsuc m) = ⊥

module _ ⦃lib : OpenSsl⦄ ⦃entropy : Entropy⦄ where
  rejects_negative :
      (s c i m : ℤ) (state : entropy.Source × lib.Rng)
      → (ltb_ℤ i (pos 0) || ltb_ℤ s (pos 0) || ltb_ℤ c (pos 0) || ltb_ℤ m (pos 0)) ≡ true
      → (message : String) × (generate_random_databases s c i m state
          ≡ (err (invalid_argument_error message), state))
  unfolding generate_random_databases
  rejects_negative s c i m state e =
      ("GenerateRandomDatabases: Sizes cannot be negative.", rw e refl)

  rejects_large :
      (s c i m : ℕ) (state : entropy.Source × lib.Rng)
      → ¬ IsAccepted s c i m
      → (message : String) × (generate_random_databases (pos s) (pos c) (pos i) (pos m) state
          ≡ (err (invalid_argument_error message), state))
  unfolding generate_random_databases
  rejects_large s c i m state h =
      let none_negative : (ltb_ℤ (pos i) (pos 0)
            || ltb_ℤ (pos s) (pos 0)
            || ltb_ℤ (pos c) (pos 0)
            || ltb_ℤ (pos m) (pos 0))
          ≡ false =
        ground arith in
      elim (Bool-cases (ltb_ℤ (pos s) (pos i) || ltb_ℤ (pos c) (pos i))) [
        | inl e ↦ (
          "GenerateRandomDatabases: intersection_size is larger than client/server data size.",
          rw (none_negative, e) refl,
        )
        | inr e ↦ elim (Bool-cases (ltb (i * m) (2 ^ 63))) [
          | inl f ↦ absurd (h (ground (arith, e), ground (arith, e), ground (arith, f)))
          | inr f ↦ (
            "GenerateRandomDatabases: intersection_size * max_associated_value  is larger than int64_t::max.",
            rw (none_negative, e, quotient_test-true i m (ground (arith, f))) refl,
          )
        ]
      ]

  -- Sizes one of which is negative, or an intersection larger than a set, or whose values together may
  -- pass the largest int64_t, are turned down as an invalid argument, and nothing is drawn.
  pub generate_random_databases-AreAccepted :
      (s c i m : ℤ) (state : entropy.Source × lib.Rng)
      → ¬ AreAccepted s c i m
      → (message : String) × (generate_random_databases s c i m state
          ≡ (err (invalid_argument_error message), state))
  generate_random_databases-AreAccepted (pos s) (pos c) (pos i) (pos m) state h =
      rejects_large s c i m state h
  generate_random_databases-AreAccepted (negsuc s) c i m state h =
      rejects_negative (negsuc s) c i m state (ground arith)
  generate_random_databases-AreAccepted (pos s) (negsuc c) i m state h =
      rejects_negative (pos s) (negsuc c) i m state (ground arith)
  generate_random_databases-AreAccepted (pos s) (pos c) (negsuc i) m state h =
      rejects_negative (pos s) (pos c) (negsuc i) m state (ground arith)
  generate_random_databases-AreAccepted (pos s) (pos c) (pos i) (negsuc m) state h =
      rejects_negative (pos s) (pos c) (pos i) (negsuc m) state (ground arith)
