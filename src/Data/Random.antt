-- ===== src/Data/Random.antt =====
-- GenerateRandomDatabases (data_util.cc). An int64_t is a signed integer, its sums wrapped around;
-- what is random in the identifiers and their order comes from a source that is a parameter.
pub mod Values
pub mod Identifiers
pub mod Letters
pub mod Accepted
pub mod Rejected
pub mod Exact
use private_join_and_compute.Prelude.{
  ℕ, zero, suc, ◌+◌, ◌-◌, ◌*◌, ◌/◌, ◌%◌, ◌^◌, Bool, true, false, none, some, List, [], ◌∷◌, ◌++◌,
  not, ◌&&◌, ◌||◌, ltb, if◌then◌else◌, get_elem?,
}
use private_join_and_compute.Prelude.Int.{ℤ, pos, negsuc, pos_part, ltb_ℤ, mod_ℤ, ◌+ℤ◌}
use private_join_and_compute.Prelude.Bytes.{Bytes, codes, bytes_lt}
use private_join_and_compute.Util.Status.{invalid_argument_error}
use private_join_and_compute.Util.Result.{Result, ok, err, value_or_die}
use private_join_and_compute.Util.Result
use private_join_and_compute.Util.Exec.{Exec, lift, pure, ◌>>=◌}
use private_join_and_compute.Crypto.OpenSsl.{OpenSsl}
use private_join_and_compute.Crypto.BigNum
use private_join_and_compute.Crypto.BigNum.{BigNum}
use private_join_and_compute.Crypto.Context.{generate_rand_less_than}

-- rand, std::random_device with std::mt19937, and std::shuffle, by the state that they draw from.
pub record Entropy : Type 1 where
  pub Source : Type 0
  pub rand : Source → ℕ × Source
  pub seed_generator : Source → Source
  pub shuffle : List Bytes → Source → List Bytes × Source

abbrev pub k_alpha_numeric_characters : Bytes
k_alpha_numeric_characters = codes "1234567890qwertyuiopasdfghjklzxcvbnmQWERTYUIOPASDFGHJKLZXCVBNM"

abbrev pub k_alpha_numeric_size : ℕ
k_alpha_numeric_size = 62

abbrev pub k_random_identifier_length_bytes : ℕ
k_random_identifier_length_bytes = 32

-- The array has a NUL behind its characters.
unfoldable pub alpha_numeric_character : ℕ → ℕ
alpha_numeric_character i = elim (get_elem? k_alpha_numeric_characters i) [ none ↦ 0 | some c ↦ c ]

-- The int64_t that an uint64_t is converted to.
unfoldable pub to_int64 : ℕ → ℤ
to_int64 n =
    if ltb (n % 2 ^ 64) (2 ^ 63) then pos (n % 2 ^ 64) else negsuc (2 ^ 64 - 1 - n % 2 ^ 64)

unfoldable pub add_int64 : ℤ → ℤ → ℤ
unfolding to_int64
add_int64 a b = to_int64 (mod_ℤ (a +ℤ b) (2 ^ 64))

-- std::numeric_limits<int64_t>::max()
abbrev pub int64_max : ℕ
int64_max = 2 ^ 63 - 1

-- The keys of a std::set are one where neither is below the other.
abbrev pub same_key : Bytes → Bytes → Bool
same_key a b = not (bytes_lt a b) && not (bytes_lt b a)

-- `server_identifiers_set.count(identifier) > 0`
unfoldable pub set_contains : List Bytes → Bytes → Bool
set_contains [] identifier = false
set_contains (x ∷ xs) identifier = same_key x identifier || set_contains xs identifier

module _ ⦃entropy : Entropy⦄ where
  unfoldable pub get_random_alpha_numeric_string : ℕ → entropy.Source → Bytes × entropy.Source
  unfolding alpha_numeric_character
  get_random_alpha_numeric_string zero s = ([], s)
  get_random_alpha_numeric_string (suc n) s =
      let (r, s₁) = entropy.rand s in
      let (output, s₂) = get_random_alpha_numeric_string n s₁ in
      (alpha_numeric_character (r % k_alpha_numeric_size) ∷ output, s₂)

  -- The loops that append identifiers.
  unfoldable pub random_identifiers : ℕ → entropy.Source → List Bytes × entropy.Source
  random_identifiers zero s = ([], s)
  random_identifiers (suc n) s =
      let (identifier, s₁) = get_random_alpha_numeric_string k_random_identifier_length_bytes s in
      let (rest, s₂) = random_identifiers n s₁ in (identifier ∷ rest, s₂)

  -- The identifiers of one party: the common ones and `n` more, shuffled.
  unfoldable pub party_identifiers : List Bytes → ℕ → entropy.Source → List Bytes × entropy.Source
  unfolding random_identifiers
  party_identifiers common n s =
      let (more, s₁) = random_identifiers n s in entropy.shuffle (common ++ more) s₁

  -- Both parties' identifiers.
  unfoldable pub all_identifiers :
      ℕ → ℕ → ℕ → entropy.Source → (List Bytes × List Bytes) × entropy.Source
  unfolding random_identifiers party_identifiers
  all_identifiers server_size client_size intersection_size s =
      let (common, s₁) = random_identifiers intersection_size (entropy.seed_generator s) in
      let (server, s₂) = party_identifiers common (server_size - intersection_size) s₁ in
      let (client, s₃) = party_identifiers common (client_size - intersection_size) s₂ in
      ((server, client), s₃)

module _ ⦃lib : OpenSsl⦄ where
  open lib use {Rng}

  -- `context.GenerateRandLessThan(bound).ToIntValue().ValueOrDie()` into an int64_t
  unfoldable pub associated_value : BigNum → Exec Rng ℤ
  unfolding to_int64
  associated_value bound = do
    drawn ← generate_rand_less_than bound
    value ← lift (value_or_die (BigNum.to_int_value drawn))
    pure (to_int64 value)

  -- The last loop: one value for each of the client's identifiers, and the sum so far.
  unfoldable pub associated_values : BigNum → List Bytes → List Bytes → ℤ → Exec Rng (List ℤ × ℤ)
  unfolding associated_value set_contains add_int64
  associated_values bound server [] sum = pure ([], sum)
  associated_values bound server (identifier ∷ rest) sum = do
    value ← associated_value bound
    others ←
        associated_values bound server rest
          (if set_contains server identifier then add_int64 sum value else sum)
    pure (value ∷ others.0, others.1)

  module _ ⦃entropy : Entropy⦄ where
    abbrev pub Databases : Type 0
    Databases = List Bytes × (List Bytes × List ℤ) × ℤ

    -- What follows the checks.
    unfoldable pub draw_databases : ℕ → ℕ → ℕ → ℕ → Exec (entropy.Source × Rng) Databases
    unfolding all_identifiers associated_values
    draw_databases server_size client_size intersection_size max_value (s, g) =
        let ((server, client), s') = all_identifiers server_size client_size intersection_size s in
        let (r, g') =
          (do
            bound ← lift (BigNum.of_u64 max_value)
            values ← associated_values bound server client (pos 0)
            pure (server, (client, values.0), values.1))
            g in
        (r, (s', g'))

    unfoldable pub generate_random_databases : ℤ → ℤ → ℤ → ℤ → Exec (entropy.Source × Rng) Databases
    unfolding draw_databases
    generate_random_databases server_size client_size intersection_size max_value state =
        let drawn =
          draw_databases (pos_part server_size) (pos_part client_size) (pos_part intersection_size)
            (pos_part max_value) state in
        if ltb_ℤ intersection_size (pos 0)
          || ltb_ℤ server_size (pos 0)
          || ltb_ℤ client_size (pos 0)
          || ltb_ℤ max_value (pos 0)
        then (
          err (invalid_argument_error "GenerateRandomDatabases: Sizes cannot be negative."),
          state,
        )
        else if ltb_ℤ server_size intersection_size || ltb_ℤ client_size intersection_size
        then (
          err (
              invalid_argument_error
                "GenerateRandomDatabases: intersection_size is larger than client/server data size."),
          state,
        )
        else if ltb_ℤ (pos 0) max_value
            && ltb (int64_max / pos_part max_value) (pos_part intersection_size)
        then (
          err (
              invalid_argument_error
                "GenerateRandomDatabases: intersection_size * max_associated_value  is larger than int64_t::max."),
          state,
        )
        else drawn
