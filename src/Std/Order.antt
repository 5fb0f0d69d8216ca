-- ===== src/Std/Order.antt =====
-- Items compared by a key that is a string, as both calls of std::sort compare them.
use private_join_and_compute.Prelude.{
  ℕ, ◌*◌, ◌≡◌, refl, ◌∙◌, Bool, true, false, not, ◌&&◌, ◌||◌, List, [], ◌∷◌, length, All, arith,
  if◌then◌else◌, Bool-cases, inl, inr,
}
use private_join_and_compute.Prelude.Bytes.{
  Bytes, bytes_lt, bytes_lt_irrefl, bytes_lt_trans, bytes_lt_connex, bytes_lt_asymm,
  bytes_lt-false_trans,
}
use private_join_and_compute.Std.{insert, sort}

-- Equality of strings, as a comparison finds it.
unfoldable pub bytes_eq : Bytes → Bytes → Bool
bytes_eq a b = not (bytes_lt a b) && not (bytes_lt b a)

pub bytes_eq_refl : (a : Bytes) → bytes_eq a a ≡ true
unfolding bytes_eq
bytes_eq_refl a = rw (bytes_lt_irrefl a)

pub bytes_eq→eq : (a b : Bytes) → bytes_eq a b ≡ true → a ≡ b
unfolding bytes_eq
bytes_eq→eq a b h = bytes_lt_connex a b (ground arith) (ground arith)

module _ {ℓ} {A : Type ℓ} where
  -- The items that pass a test, in their order.
  unfoldable pub keep : (A → Bool) → List A → List A
  keep test [] = []
  keep test (x ∷ xs) = let rest = keep test xs in if test x then x ∷ rest else rest

  unfoldable pub product : (A → ℕ) → List A → ℕ
  product weight [] = 1
  product weight (x ∷ xs) = weight x * product weight xs

  -- Sorting changes neither how many items pass a test nor the product over them.
  length-keep-insert :
      (less : A → A → Bool) (test : A → Bool) (a : A) (xs : List A)
      → length (keep test (insert less a xs)) ≡ length (keep test (a ∷ xs))
  unfolding keep insert
  length-keep-insert less test a [] = refl
  length-keep-insert less test a (x ∷ xs) = ground (arith, length-keep-insert less test a xs)

  pub length-keep-sort :
      (less : A → A → Bool) (test : A → Bool) (xs : List A)
      → length (keep test (sort less xs)) ≡ length (keep test xs)
  unfolding keep sort
  length-keep-sort less test [] = refl
  length-keep-sort less test (x ∷ xs) =
      ground (arith, length-keep-insert less test x (sort less xs), length-keep-sort less test xs)

  product-keep-cons :
      (test : A → Bool) (weight : A → ℕ) (x : A) (xs : List A)
      → product weight (keep test (x ∷ xs))
        ≡ (if test x then weight x else 1) * product weight (keep test xs)
  unfolding keep product
  product-keep-cons test weight x xs = ground arith

  product-keep-insert :
      (less : A → A → Bool) (test : A → Bool) (weight : A → ℕ) (a : A) (xs : List A)
      → product weight (keep test (insert less a xs)) ≡ product weight (keep test (a ∷ xs))
  unfolding insert
  product-keep-insert less test weight a [] = refl
  product-keep-insert less test weight a (x ∷ xs) = elim (Bool-cases (less x a)) [
    | inl e ↦
        rw
          (
            e,
            product-keep-cons test weight x (insert less a xs),
            product-keep-insert less test weight a xs,
            product-keep-cons test weight a xs,
            product-keep-cons test weight a (x ∷ xs),
            product-keep-cons test weight x xs,
          )
          (omega arith)
    | inr e ↦ rw e
  ]

  pub product-keep-sort :
      (less : A → A → Bool) (test : A → Bool) (weight : A → ℕ) (xs : List A)
      → product weight (keep test (sort less xs)) ≡ product weight (keep test xs)
  unfolding keep product sort
  product-keep-sort less test weight [] = refl
  product-keep-sort less test weight (x ∷ xs) = ground (
    arith,
    product-keep-insert less test weight x (sort less xs),
    product-keep-sort less test weight xs,
  )

module _ {ℓ} {A : Type ℓ} (key : A → Bytes) where
  abbrev pub less_by : A → A → Bool
  less_by a b = bytes_lt (key a) (key b)

  -- No later item is below an earlier one.
  abbrev pub IsSorted : List A → Type 0
  IsSorted [] = Unit
  IsSorted (x ∷ xs) = All (λ y. bytes_lt (key y) (key x) ≡ false) xs × IsSorted xs

  -- Nor equal to it.
  abbrev pub IsStrictlySorted : List A → Type 0
  IsStrictlySorted [] = Unit
  IsStrictlySorted (x ∷ xs) = All (λ y. bytes_lt (key x) (key y) ≡ true) xs × IsStrictlySorted xs

  -- Whether an item has the key.
  unfoldable pub has : Bytes → List A → Bool
  has k [] = false
  has k (y ∷ ys) = bytes_eq k (key y) || has k ys

  -- No two items have one key.
  abbrev pub IsDistinct : List A → Type 0
  IsDistinct [] = Unit
  IsDistinct (x ∷ xs) = (has (key x) xs ≡ false) × IsDistinct xs

  has-insert : (k : Bytes) (a : A) (xs : List A) → has k (insert less_by a xs) ≡ has k (a ∷ xs)
  unfolding has insert
  has-insert k a [] = refl
  has-insert k a (x ∷ xs) = ground (arith, has-insert k a xs)

  -- Sorting keeps the keys.
  pub has-sort : (k : Bytes) (xs : List A) → has k (sort less_by xs) ≡ has k xs
  unfolding has sort
  has-sort k [] = refl
  has-sort k (x ∷ xs) = ground (arith, has-insert k x (sort less_by xs), has-sort k xs)

  -- A fact of every item passes to the list with one more item in place.
  All-insert {κ} :
      (P : A → Type κ) (a : A) (xs : List A) → P a → All P xs → All P (insert less_by a xs)
  unfolding insert
  All-insert P a [] h hs = (h, tt)
  All-insert P a (x ∷ xs) h hs = elim (Bool-cases (less_by x a)) [
    | inl e ↦ rw e (hs.0, All-insert P a xs h hs.1)
    | inr e ↦ rw e (h, hs)
  ]

  not_below_trans :
      (a x : A) (ys : List A)
      → less_by x a ≡ false
      → All (λ y. less_by y x ≡ false) ys
      → All (λ y. less_by y a ≡ false) ys
  not_below_trans a x [] h hs = tt
  not_below_trans a x (y ∷ ys) h hs =
      (bytes_lt-false_trans (key y) (key x) (key a) hs.0 h, not_below_trans a x ys h hs.1)

  insert-IsSorted : (a : A) (xs : List A) → IsSorted xs → IsSorted (insert less_by a xs)
  unfolding insert
  insert-IsSorted a [] h = (tt, tt)
  insert-IsSorted a (x ∷ xs) h = elim (Bool-cases (less_by x a)) [
    | inl e ↦ rw e (
      All-insert (λ y. less_by y x ≡ false) a xs (bytes_lt_asymm (key x) (key a) e) h.0,
      insert-IsSorted a xs h.1,
    )
    | inr e ↦ rw e ((e, not_below_trans a x xs e h.0), h)
  ]

  pub sort-IsSorted : (xs : List A) → IsSorted (sort less_by xs)
  unfolding sort
  sort-IsSorted [] = tt
  sort-IsSorted (x ∷ xs) = insert-IsSorted x (sort less_by xs) (sort-IsSorted xs)

  below_trans :
      (a x : A) (ys : List A)
      → less_by a x ≡ true
      → All (λ y. less_by x y ≡ true) ys
      → All (λ y. less_by a y ≡ true) ys
  below_trans a x [] h hs = tt
  below_trans a x (y ∷ ys) h hs =
      (bytes_lt_trans (key a) (key x) (key y) h hs.0, below_trans a x ys h hs.1)

  insert-IsStrictlySorted :
      (a : A) (xs : List A)
      → has (key a) xs ≡ false
      → IsStrictlySorted xs
      → IsStrictlySorted (insert less_by a xs)
  unfolding insert has bytes_eq
  insert-IsStrictlySorted a [] fresh h = (tt, tt)
  insert-IsStrictlySorted a (x ∷ xs) fresh h = elim (Bool-cases (less_by x a)) [
    | inl e ↦ rw e (
      All-insert (λ y. less_by x y ≡ true) a xs e h.0,
      insert-IsStrictlySorted a xs (ground arith) h.1,
    )
    | inr e ↦
        let below : less_by a x ≡ true = ground arith in
        rw e ((below, below_trans a x xs below h.0), h)
  ]

  -- Items with distinct keys come out in strictly ascending order.
  pub sort-IsStrictlySorted : (xs : List A) → IsDistinct xs → IsStrictlySorted (sort less_by xs)
  unfolding sort
  sort-IsStrictlySorted [] h = tt
  sort-IsStrictlySorted (x ∷ xs) h =
      insert-IsStrictlySorted x (sort less_by xs) (has-sort (key x) xs ∙ h.0)
        (sort-IsStrictlySorted xs h.1)
