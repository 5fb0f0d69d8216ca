-- ===== src/Data/Random/Exact.antt =====
-- Where the sum of GenerateRandomDatabases is the sum of integers, and where it returns nothing.
use native.Mathlib.Nat.{mul-zero}
use private_join_and_compute.Prelude.{
  ℕ, suc, ◌*◌, ◌^◌, ◌≤◌, ◌<◌, ◌≡◌, refl, sym, ◌∙◌, ap, List, [], ◌∷◌, map, length, All, arith, none,
  Bool-cases, inl, inr,
}
use private_join_and_compute.Prelude.Int.{ℤ, pos}
use private_join_and_compute.Prelude.Bytes.{Bytes}
use private_join_and_compute.Util.Result.{Result, ok, die}
use private_join_and_compute.Crypto.OpenSsl.{OpenSsl}
use private_join_and_compute.Crypto.OpenSsl.Laws.{BnLaws}
use private_join_and_compute.Crypto.BigNum.Laws.{of_u64-ok}
use private_join_and_compute.Crypto.Context.{generate_rand_less_than}
use private_join_and_compute.Data.Random.{
  Entropy, Databases, to_int64, set_contains, associated_value, associated_values, draw_databases,
  generate_random_databases,
}
use private_join_and_compute.Data.Random.Identifiers.{EntropyLaws, all_identifiers_lem}
use private_join_and_compute.Data.Random.Values.{common_sum, common_count, to_int64-small}
use private_join_and_compute.Data.Random.Accepted.{
  IsAccepted, generate_random_databases-IsAccepted, generate_random_databases_lem,
}

common_sum-bound :
    (server client : List Bytes) (vs : List ℕ) (m : ℕ)
    → All (λ v. v < m) vs
    → common_sum server client vs ≤ common_count server client * m
common_sum-bound server [] vs m h = omega arith
common_sum-bound server (x ∷ xs) [] m h = omega arith
common_sum-bound server (x ∷ xs) (v ∷ vs) m (h, hs) = elim (Bool-cases (set_contains server x)) [
  | inl e ↦ rw e (omega (arith, h, common_sum-bound server xs vs m hs))
  | inr e ↦ rw e (omega (arith, common_sum-bound server xs vs m hs))
]

module _ ⦃lib : OpenSsl⦄ ⦃entropy : Entropy⦄ where
  returned-eq :
      {server server' client client' : List Bytes} {values values' : List ℤ} {sum sum' : ℤ}
      {s s' : entropy.Source × lib.Rng}
      → ◌≡◌ {A = Result Databases × (entropy.Source × lib.Rng)}
          (ok (server, (client, values), sum), s)
          (ok (server', (client', values'), sum'), s')
      → (server ≡ server') × (client ≡ client') × (values ≡ values') × (sum ≡ sum')
  returned-eq h = (cc, cc, cc, cc)

  -- Where the sizes are accepted and no more identifiers are common than the intersection has, the sum
  -- that is returned is the sum of integers: it fits an int64_t, with no wrap-around.
  pub generate_random_databases-exact :
      BnLaws lib
      → EntropyLaws
      → (server_size client_size size max_value : ℕ) (before after : entropy.Source × lib.Rng)
        (server client : List Bytes) (values : List ℤ) (sum : ℤ)
      → IsAccepted server_size client_size size max_value
      → 0 < max_value
      → max_value < 2 ^ 63
      → generate_random_databases
          (pos server_size)
          (pos client_size)
          (pos size)
          (pos max_value)
          before
        ≡ (ok (server, (client, values), sum), after)
      → common_count server client ≡ size
      → (vs : List ℕ) × (values ≡ map pos vs)
        × (sum ≡ pos (common_sum server client vs))
        × (common_sum server client vs < 2 ^ 63)
  generate_random_databases-exact bn laws server_size client_size size m (s, g) after server client
        values sum accepted positive small h count =
      let (server₀, client₀, vs, s', g', made, _, _, _, below, _, _, _) =
        generate_random_databases_lem bn laws server_size client_size size m s g accepted positive
          small in
      let (e₁, e₂, e₃, e₄) = returned-eq (sym made ∙ h) in
      let same : common_sum server₀ client₀ vs ≡ common_sum server client vs = rw (e₁, e₂) refl in
      let bound = common_sum-bound server client vs m below in
      let fits : common_sum server client vs < 2 ^ 63 =
        let (_, _, l) = accepted in omega (arith, rw count at bound, l) in
      (
        vs,
        sym e₃,
        sym e₄ ∙ ap to_int64 same ∙ to_int64-small (common_sum server client vs) fits,
        fits,
      )

  associated_values-die :
      (server client : List Bytes) (sum : ℤ) (n : ℕ) (g : lib.Rng)
      → ((h : lib.Rng) → (lib.bn_rand_range (pos 0) h).0 ≡ none)
      → length client ≡ suc n
      → (associated_values (pos 0) server client sum g).0 ≡ die
  unfolding associated_values associated_value generate_rand_less_than
  associated_values-die server [] sum n g h len = absurd (omega (arith, len))
  associated_values-die server (x ∷ xs) sum n g h len = rw (h g) refl

  -- Where BN_rand_range fails at an empty range, a bound of 0 on the values passes the checks, and then
  -- ends the process unless the client's set is empty.
  pub generate_random_databases-zero :
      BnLaws lib
      → EntropyLaws
      → ((g : lib.Rng) → (lib.bn_rand_range (pos 0) g).0 ≡ none)
      → (server_size n size : ℕ) (state : entropy.Source × lib.Rng) → size ≤ server_size
      → size ≤ suc n
      → (generate_random_databases (pos server_size) (pos (suc n)) (pos size) (pos 0) state).0 ≡ die
  generate_random_databases-zero bn laws h server_size n size (s, g) le le' =
      let (_, len, _) = all_identifiers_lem laws server_size (suc n) size s le le' in
      ap (λ r. r.0)
        (generate_random_databases-IsAccepted server_size (suc n) size 0 (s, g)
          (le, le', omega (arith, mul-zero size)))
      ∙ (unfold draw_databases in
          rw (of_u64-ok bn 0 (omega arith), associated_values-die _ _ (pos 0) n g h len) refl)
