-- ===== src/Data/Random/Letters.antt =====
-- The bytes of the random identifiers are letters and digits.
use mathlib.Core.List.{Permᴰ}
use private_join_and_compute.Prelude.{
  ℕ, zero, suc, ◌%◌, ◌<◌, ◌≡◌, refl, sym, subst, List, [], ◌∷◌, ◌++◌, All, some, length, get_elem?,
  arith,
}
use private_join_and_compute.Prelude.Bytes.{Bytes}
use private_join_and_compute.Data.Random.Identifiers.{EntropyLaws}
use private_join_and_compute.Data.Random.{
  Entropy, alpha_numeric_character, k_alpha_numeric_characters, get_random_alpha_numeric_string,
  random_identifiers, party_identifiers, all_identifiers,
}

-- A digit or a letter, upper or lower, and then some between the three ranges.
abbrev pub IsWord : Bytes → Type 0
IsWord = All (λ c. (47 < c) × (c < 123))

pub IsWord-All : (P : ℕ → Type 0) → ((c : ℕ) → 47 < c → P c) → (x : Bytes) → IsWord x → All P x
IsWord-All P h [] w = tt
IsWord-All P h (c ∷ x) (d, w) = (h c d.0, IsWord-All P h x w)

pub words-All :
    (P : ℕ → Type 0) → ((c : ℕ) → 47 < c → P c) → (xs : List Bytes) → All IsWord xs → All (All P) xs
words-All P h [] w = tt
words-All P h (x ∷ xs) (w, ws) = (IsWord-All P h x w, words-All P h xs ws)

get_elem?-All :
    (P : ℕ → Type 0) (xs : Bytes) (i : ℕ)
    → i < length xs
    → All P xs
    → (c : ℕ) × (get_elem? xs i ≡ some c) × P c
get_elem?-All P [] i h a = absurd (omega (arith, h))
get_elem?-All P (x ∷ xs) zero h (p, a) = (x, refl, p)
get_elem?-All P (x ∷ xs) (suc i) h (p, a) = get_elem?-All P xs i (omega (arith, h)) a

alpha_numeric_character-range :
    (i : ℕ) → i < 62 → (47 < alpha_numeric_character i) × (alpha_numeric_character i < 123)
unfolding alpha_numeric_character
alpha_numeric_character-range i h =
    let (c, e, p) =
      get_elem?-All (λ c. (47 < c) × (c < 123)) k_alpha_numeric_characters i h (omega arith) in
    rw (e, alpha_numeric_character) p

append-IsWord : (xs ys : List Bytes) → All IsWord xs → All IsWord ys → All IsWord (xs ++ ys)
append-IsWord [] ys h k = k
append-IsWord (x ∷ xs) ys (h, hs) k = (h, append-IsWord xs ys hs k)

Perm-IsWord : {xs ys : List Bytes} → Permᴰ xs ys → All IsWord ys → All IsWord xs
Perm-IsWord Permᴰ.nil h = h
Perm-IsWord (Permᴰ.cons e p) (h, hs) = (subst IsWord (sym e) h, Perm-IsWord p hs)
Perm-IsWord (Permᴰ.swap e f) (h, (k, hs)) = (subst IsWord (sym e) k, (subst IsWord (sym f) h, hs))
Perm-IsWord (Permᴰ.trans p q) h = Perm-IsWord p (Perm-IsWord q h)

module _ ⦃entropy : Entropy⦄ where
  get_random_alpha_numeric_string-IsWord :
      (n : ℕ) (s : entropy.Source) → IsWord (get_random_alpha_numeric_string n s).0
  unfolding get_random_alpha_numeric_string
  get_random_alpha_numeric_string-IsWord zero s = tt
  get_random_alpha_numeric_string-IsWord (suc n) s = (
    alpha_numeric_character-range ((entropy.rand s).0 % 62) (omega arith),
    get_random_alpha_numeric_string-IsWord n _,
  )

  random_identifiers-IsWord : (n : ℕ) (s : entropy.Source) → All IsWord (random_identifiers n s).0
  unfolding random_identifiers
  random_identifiers-IsWord zero s = tt
  random_identifiers-IsWord (suc n) s =
      (get_random_alpha_numeric_string-IsWord 32 s, random_identifiers-IsWord n _)

  party_identifiers-IsWord :
      EntropyLaws
      → (common : List Bytes) (n : ℕ) (s : entropy.Source) → All IsWord common
      → All IsWord (party_identifiers common n s).0
  unfolding party_identifiers
  party_identifiers-IsWord laws common n s h =
      Perm-IsWord (laws.shuffle-Perm _ _)
        (append-IsWord common (random_identifiers n s).0 h (random_identifiers-IsWord n s))

  pub all_identifiers-IsWord :
      EntropyLaws
      → (server_size client_size size : ℕ) (s : entropy.Source)
      → All IsWord (all_identifiers server_size client_size size s).0.0
        × All IsWord (all_identifiers server_size client_size size s).0.1
  unfolding all_identifiers
  all_identifiers-IsWord laws server_size client_size size s =
      let h = random_identifiers-IsWord size (entropy.seed_generator s) in
      (party_identifiers-IsWord laws _ _ _ h, party_identifiers-IsWord laws _ _ _ h)
