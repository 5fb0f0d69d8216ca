-- ===== src/Data/Random/Accepted.antt =====
-- The checks of GenerateRandomDatabases, and what it returns past them.
use native.Mathlib.Nat.{div-lt_iff_lt-mul, mul-zero, zero-add}
use private_join_and_compute.Prelude.{
  ℕ, zero, suc, ◌+◌, ◌*◌, ◌/◌, ◌^◌, ◌≤◌, ◌<◌, ◌≡◌, refl, ◌∙◌, true, false, ◌&&◌, List, map, length,
  All, arith, ltb,
}
use private_join_and_compute.Prelude.Int.{pos, ltb_ℤ}
use private_join_and_compute.Prelude.Bytes.{Bytes}
use private_join_and_compute.Util.Result.{ok}
use private_join_and_compute.Crypto.OpenSsl.{OpenSsl}
use private_join_and_compute.Crypto.OpenSsl.Laws.{BnLaws}
use private_join_and_compute.Crypto.BigNum.Laws.{of_u64-ok}
use private_join_and_compute.Data.Random.{
  Entropy, int64_max, to_int64, all_identifiers, associated_values, draw_databases,
  generate_random_databases,
}
use private_join_and_compute.Data.Random.Identifiers.{EntropyLaws, all_identifiers_lem}
use private_join_and_compute.Data.Random.Letters.{IsWord, all_identifiers-IsWord}
use private_join_and_compute.Data.Random.Values.{
  common_sum, common_count, associated_values_lem, to_int64-small,
}

-- The sizes that the documentation asks for: the intersection is no larger than either set, and its
-- values together fit an int64_t.
abbrev pub IsAccepted : ℕ → ℕ → ℕ → ℕ → Type 0
IsAccepted server_size client_size size max_value =
    (size ≤ server_size) × (size ≤ client_size) × (size * max_value < 2 ^ 63)

quotient_test :
    (size max_value : ℕ)
    → size * max_value < 2 ^ 63
    → (ltb_ℤ (pos 0) (pos max_value) && ltb (int64_max / max_value) size) ≡ false
quotient_test size zero h = ground arith
quotient_test size (suc m) h =
    let divides = div-lt_iff_lt-mul {k = suc m} {x = int64_max} {y = size} (omega arith) in
    ground (arith, divides, h)

pub quotient_test-true :
    (size max_value : ℕ)
    → 2 ^ 63 ≤ size * max_value
    → (ltb_ℤ (pos 0) (pos max_value) && ltb (int64_max / max_value) size) ≡ true
quotient_test-true size zero h = absurd (omega (arith, h, mul-zero size))
quotient_test-true size (suc m) h =
    let divides = div-lt_iff_lt-mul {k = suc m} {x = int64_max} {y = size} (omega arith) in
    ground (arith, divides, h)

module _ ⦃lib : OpenSsl⦄ ⦃entropy : Entropy⦄ where
  -- Sizes that are accepted go on to the drawing of the two sets.
  pub generate_random_databases-IsAccepted :
      (server_size client_size size max_value : ℕ) (state : entropy.Source × lib.Rng)
      → IsAccepted server_size client_size size max_value
      → generate_random_databases
          (pos server_size)
          (pos client_size)
          (pos size)
          (pos max_value)
          state
        ≡ draw_databases server_size client_size size max_value state
  unfolding generate_random_databases
  generate_random_databases-IsAccepted server_size client_size size max_value state (h, k, l) =
      rw (quotient_test size max_value l) (ground (arith, h, k))

  draw_databases-ok :
      BnLaws lib
      → (server_size client_size size max_value : ℕ) (s : entropy.Source) (g g' : lib.Rng)
        (vs : List ℕ)
      → max_value < 2 ^ 64
      → associated_values
          (pos max_value)
          (all_identifiers server_size client_size size s).0.0
          (all_identifiers server_size client_size size s).0.1
          (to_int64 0)
          g
        ≡ (
          ok (
            map pos vs,
            to_int64 (
                0
                + common_sum
                    (all_identifiers server_size client_size size s).0.0
                    (all_identifiers server_size client_size size s).0.1
                    vs),
          ),
          g',
        )
      → draw_databases server_size client_size size max_value (s, g) ≡ (
        ok (
          (all_identifiers server_size client_size size s).0.0,
          ((all_identifiers server_size client_size size s).0.1, map pos vs),
          to_int64 (
              common_sum
                (all_identifiers server_size client_size size s).0.0
                (all_identifiers server_size client_size size s).0.1
                vs),
        ),
        ((all_identifiers server_size client_size size s).1, g'),
      )
  unfolding draw_databases
  draw_databases-ok bn server_size client_size size max_value s g g' vs small drawn =
      rw (of_u64-ok bn max_value small, ← to_int64-small 0 (omega arith), drawn, zero-add) refl

  module _ (bn : BnLaws lib) (laws : EntropyLaws) where
    -- Accepted sizes, with a bound above 0 on the values, give two sets of the sizes asked for, of
    -- identifiers whose bytes are from 0 to z; at least as many of the client's identifiers as the
    -- intersection has are among the server's; each value is below the bound; and the sum is that of the
    -- values beside the client's identifiers that are among the server's, as an int64_t.
    pub generate_random_databases_lem :
        (server_size client_size size max_value : ℕ) (s : entropy.Source) (g : lib.Rng)
        → IsAccepted server_size client_size size max_value
        → 0 < max_value
        → max_value < 2 ^ 63
        → (server client : List Bytes) × (vs : List ℕ) × (s' : entropy.Source) × (g' : lib.Rng)
          × (generate_random_databases
                (pos server_size)
                (pos client_size)
                (pos size)
                (pos max_value)
                (s, g)
              ≡ (
                ok (server, (client, map pos vs), to_int64 (common_sum server client vs)),
                (s', g'),
              ))
          × (length server ≡ server_size)
          × (length client ≡ client_size)
          × (length vs ≡ client_size)
          × All (λ v. v < max_value) vs
          × (size ≤ common_count server client)
          × All IsWord server
          × All IsWord client
    generate_random_databases_lem server_size client_size size max_value s g accepted positive
          small =
        let ((server, client), s') = all_identifiers server_size client_size size s in
        let (len_server, len_client, common) =
          all_identifiers_lem laws server_size client_size size s accepted.0 accepted.1 in
        let (vs, g', drawn, len, below) =
          associated_values_lem bn max_value server client 0 g positive small in
        (
          server,
          client,
          vs,
          s',
          g',
          generate_random_databases-IsAccepted server_size client_size size max_value (s, g)
                accepted
              ∙ draw_databases-ok bn server_size client_size size max_value s g g' vs
                  (omega (arith, small)) drawn,
          len_server,
          len_client,
          len ∙ len_client,
          below,
          common,
          (all_identifiers-IsWord laws server_size client_size size s).0,
          (all_identifiers-IsWord laws server_size client_size size s).1,
        )
