-- ===== src/Data/Random/Identifiers.antt =====
-- The identifiers of the two random data sets: how many there are, and how many both hold.
use mathlib.Core.List.{Permᴰ, append_assoc}
use private_join_and_compute.Prelude.{
  ℕ, zero, suc, ◌+◌, ◌-◌, ◌≤◌, ◌≡◌, refl, sym, ◌∙◌, ap, Bool, true, false, ◌||◌, List, [], ◌∷◌,
  ◌++◌, length, length-append, arith,
}
use private_join_and_compute.Prelude.Bytes.{Bytes, bytes_lt_irrefl}
use private_join_and_compute.Data.Random.{
  Entropy, random_identifiers, party_identifiers, all_identifiers, set_contains, same_key,
}
use private_join_and_compute.Data.Random.Values.{common_count}

-- std::shuffle permutes.
pub record EntropyLaws ⦃entropy : Entropy⦄ : Type 0 where
  pub shuffle-Perm : (xs : List Bytes) (s : entropy.Source) → Permᴰ (entropy.shuffle xs s).0 xs

pub length-Perm : {xs ys : List Bytes} → Permᴰ xs ys → length xs ≡ length ys
length-Perm Permᴰ.nil = refl
length-Perm (Permᴰ.cons e p) = ap suc (length-Perm p)
length-Perm (Permᴰ.swap e f) = refl
length-Perm (Permᴰ.trans p q) = length-Perm p ∙ length-Perm q

set_contains-Perm :
    {xs ys : List Bytes} (x : Bytes) → Permᴰ xs ys → set_contains xs x ≡ set_contains ys x
unfolding set_contains
set_contains-Perm x Permᴰ.nil = refl
set_contains-Perm x (Permᴰ.cons e p) = rw (e, set_contains-Perm x p) refl
set_contains-Perm x (Permᴰ.swap {a} {b} {l = l} e f) =
    rw (← e, ← f) (or_swap (same_key a x) (same_key b x) (set_contains l x))
  where
    or_swap : (p q r : Bool) → (p || (q || r)) ≡ (q || (p || r))
    or_swap p q r = ground arith
set_contains-Perm x (Permᴰ.trans p q) = set_contains-Perm x p ∙ set_contains-Perm x q

common_count-Perm :
    {xs ys : List Bytes} (server : List Bytes)
    → Permᴰ xs ys
    → common_count server xs ≡ common_count server ys
common_count-Perm server Permᴰ.nil = refl
common_count-Perm server (Permᴰ.cons {a} e p) = rw (← e, common_count-Perm server p) refl
common_count-Perm server (Permᴰ.swap e f) = rw (← e, ← f) (omega arith)
common_count-Perm server (Permᴰ.trans p q) = common_count-Perm server p ∙ common_count-Perm server q

set_contains-append :
    (xs ys : List Bytes) (x : Bytes)
    → set_contains (xs ++ ys) x ≡ (set_contains xs x || set_contains ys x)
unfolding set_contains
set_contains-append [] ys x = refl
set_contains-append (y ∷ xs) ys x = ground (arith, set_contains-append xs ys x)

set_contains_self : (x : Bytes) (xs : List Bytes) → set_contains (x ∷ xs) x ≡ true
unfolding set_contains
set_contains_self x xs = rw (bytes_lt_irrefl x) refl

common_count-append :
    (server xs ys : List Bytes)
    → common_count server (xs ++ ys) ≡ common_count server xs + common_count server ys
common_count-append server [] ys = omega arith
common_count-append server (x ∷ xs) ys = omega (arith, common_count-append server xs ys)

set_contains_middle :
    (xs : List Bytes) (x : Bytes) (ys : List Bytes) → set_contains (xs ++ (x ∷ ys)) x ≡ true
set_contains_middle xs x ys =
    rw (set_contains-append xs (x ∷ ys) x, set_contains_self x ys) (or_true (set_contains xs x))
  where
    or_true : (p : Bool) → (p || true) ≡ true
    or_true true = refl
    or_true false = refl

-- All of a list is contained in a set that holds the list's items and those before them.
common_count-all :
    (before xs after server : List Bytes)
    → ((x : Bytes) → set_contains server x ≡ set_contains (before ++ (xs ++ after)) x)
    → common_count server xs ≡ length xs
common_count-all before [] after server h = refl
common_count-all before (x ∷ xs) after server h =
    let rest = common_count-all (before ++ (x ∷ [])) xs after server (λ y.
      h y ∙ ap (λ ys. set_contains ys y) (sym (append_assoc before (x ∷ []) (xs ++ after)))) in
    let found : set_contains server x ≡ true = h x ∙ set_contains_middle before x (xs ++ after) in
    rw found (omega (arith, rest))

module _ ⦃entropy : Entropy⦄ where
  length-random_identifiers : (n : ℕ) (s : entropy.Source) → length (random_identifiers n s).0 ≡ n
  unfolding random_identifiers
  length-random_identifiers zero s = refl
  length-random_identifiers (suc n) s = ap suc (length-random_identifiers n _)

  party_identifiers-Perm :
      EntropyLaws
      → (common : List Bytes) (n : ℕ) (s : entropy.Source)
      → (more : List Bytes) × (length more ≡ n)
        × Permᴰ (party_identifiers common n s).0 (common ++ more)
  unfolding party_identifiers
  party_identifiers-Perm laws common n s =
      ((random_identifiers n s).0, length-random_identifiers n s, laws.shuffle-Perm _ _)

  -- Where the intersection is no larger than either set, the two sets have the sizes asked for, and as
  -- many of the client's identifiers as the intersection has are among the server's, or more.
  pub all_identifiers_lem :
      EntropyLaws
      → (server_size client_size size : ℕ) (s : entropy.Source) → size ≤ server_size
      → size ≤ client_size
      → (length (all_identifiers server_size client_size size s).0.0 ≡ server_size)
        × (length (all_identifiers server_size client_size size s).0.1 ≡ client_size)
        × (size
            ≤ common_count
                (all_identifiers server_size client_size size s).0.0
                (all_identifiers server_size client_size size s).0.1)
  unfolding all_identifiers
  all_identifiers_lem laws server_size client_size size s h k =
      let (common, s₁) = random_identifiers size (entropy.seed_generator s) in
      let size_common = length-random_identifiers size (entropy.seed_generator s) in
      let (more, len, perm) = party_identifiers-Perm laws common (server_size - size) s₁ in
      let (server, s₂) = party_identifiers common (server_size - size) s₁ in
      let (others, len', perm') = party_identifiers-Perm laws common (client_size - size) s₂ in
      (
        omega (arith, length-Perm perm, length-append common more, len, size_common, h),
        omega (arith, length-Perm perm', length-append common others, len', size_common, k),
        omega (
          arith,
          common_count-Perm server perm',
          common_count-append server common others,
          common_count-all [] common more server (λ x. set_contains-Perm x perm),
          size_common,
        ),
      )
