-- ===== src/Std/Intersection.antt =====
-- What std::set_intersection computes on sorted ranges.
use mathlib.Core.Path.{fun_ext}
use private_join_and_compute.Prelude.{
  ◌≡◌, refl, ◌∙◌, ap, Bool, true, false, List, [], ◌∷◌, All, arith, Bool-cases, inl, inr, sym,
  subst,
}
use private_join_and_compute.Prelude.Bytes.{
  Bytes, bytes_lt, bytes_lt_trans, bytes_lt_connex, bytes_lt_of_not_below,
}
use private_join_and_compute.Std.{sort, set_intersection}
use private_join_and_compute.Std.Order.{
  bytes_eq, less_by, IsSorted, IsStrictlySorted, IsDistinct, has, has-sort, keep, sort-IsSorted,
  sort-IsStrictlySorted,
}

module _ {ℓ} {A : Type ℓ} (key : A → Bytes) where
  keep-empty : (xs : List A) → keep (λ x. has key (key x) []) xs ≡ []
  unfolding keep has
  keep-empty [] = refl
  keep-empty (x ∷ xs) = keep-empty xs

  pub keep-congr :
      (test test' : A → Bool) (xs : List A)
      → All (λ x. test x ≡ test' x) xs
      → keep test xs ≡ keep test' xs
  unfolding keep
  keep-congr test test' [] h = refl
  keep-congr test test' (x ∷ xs) h = rw (h.0, keep-congr test test' xs h.1)

  above :
      (k : Bytes) (y : A) (ys : List A)
      → bytes_lt k (key y) ≡ true
      → All (λ z. less_by key z y ≡ false) ys
      → All (λ z. bytes_lt k (key z) ≡ true) ys
  above k y [] h hs = tt
  above k y (z ∷ ys) h hs = (bytes_lt_of_not_below k (key y) (key z) h hs.0, above k y ys h hs.1)

  has-above :
      (k : Bytes) (ys : List A) → All (λ z. bytes_lt k (key z) ≡ true) ys → has key k ys ≡ false
  unfolding has bytes_eq
  has-above k [] h = refl
  has-above k (y ∷ ys) h = ground (arith, has-above k ys h.1, h.0)

  -- A key above the head is not the head's.
  has-skip :
      (y : A) (ys xs : List A)
      → All (λ x. less_by key y x ≡ true) xs
      → All (λ x. has key (key x) (y ∷ ys) ≡ has key (key x) ys) xs
  unfolding has bytes_eq
  has-skip y ys [] h = tt
  has-skip y ys (x ∷ xs) h = (ground (arith, h.0), has-skip y ys xs h.1)

  above-All :
      (x y : A) (xs : List A)
      → less_by key y x ≡ true
      → All (λ z. less_by key x z ≡ true) xs
      → All (λ z. less_by key y z ≡ true) xs
  above-All x y [] h hs = tt
  above-All x y (z ∷ xs) h hs =
      (bytes_lt_trans (key y) (key x) (key z) h hs.0, above-All x y xs h hs.1)

  above_equal :
      (x y : A) (xs : List A)
      → key x ≡ key y
      → All (λ z. less_by key x z ≡ true) xs
      → All (λ z. less_by key y z ≡ true) xs
  above_equal x y xs e = subst (λ k. All (λ z. bytes_lt k (key z) ≡ true) xs) e

  keep-skip :
      (test : A → Bool) (x : A) (xs : List A) → test x ≡ false → keep test (x ∷ xs) ≡ keep test xs
  unfolding keep
  keep-skip test x xs h = rw h

  keep-take :
      (test : A → Bool) (x : A) (xs : List A)
      → test x ≡ true
      → keep test (x ∷ xs) ≡ x ∷ keep test xs
  unfolding keep
  keep-take test x xs h = rw h

  has-head :
      (k : Bytes) (y : A) (ys : List A)
      → bytes_lt k (key y) ≡ false
      → bytes_lt (key y) k ≡ false
      → has key k (y ∷ ys) ≡ true
  unfolding has bytes_eq
  has-head k y ys h h' = rw (h, h')

  -- Of ranges in ascending order, the first without repetitions, std::set_intersection gives the items
  -- of the first whose key the second has.
  pub set_intersection-keep :
      (xs ys : List A)
      → IsStrictlySorted key xs
      → IsSorted key ys
      → set_intersection (less_by key) xs ys ≡ keep (λ x. has key (key x) ys) xs
  unfolding set_intersection
  set_intersection-keep [] ys sx sy = unfold keep in refl
  set_intersection-keep (x ∷ xs) [] sx sy = ap (λ (l : List A). l) (sym (keep-empty (x ∷ xs)))
  set_intersection-keep (x ∷ xs) (y ∷ ys) sx sy = elim (Bool-cases (less_by key x y)) [
    | inl below ↦
        rw (below, set_intersection)
          (set_intersection-keep xs (y ∷ ys) sx.1 sy
            ∙ sym (
                keep-skip _ x xs
                  (has-above (key x) (y ∷ ys) (below, above (key x) y ys below sy.0))))
    | inr e ↦ elim (Bool-cases (less_by key y x)) [
      | inl over ↦
          rw (e, over, set_intersection)
            (set_intersection-keep (x ∷ xs) ys sx sy.1
              ∙ sym (
                  keep-congr _ _ (x ∷ xs)
                    (has-skip y ys (x ∷ xs) (over, above-All x y xs over sx.0))))
      | inr e' ↦
          let same = bytes_lt_connex (key x) (key y) e e' in
          rw (e, e', set_intersection)
            (ap (◌∷◌ x) (
                set_intersection-keep xs ys sx.1 sy.1
                ∙ sym (keep-congr _ _ xs (has-skip y ys xs (above_equal x y xs same sx.0))))
              ∙ sym (keep-take _ x xs (has-head (key x) y ys e e')))
    ]
  ]

  -- Of two lists, the first without repeated keys, that are sorted by key first, std::set_intersection
  -- gives the items of the first whose key the second has, in the order of the keys.
  pub set_intersection-sort :
      (xs ys : List A)
      → IsDistinct key xs
      → set_intersection (less_by key) (sort (less_by key) xs) (sort (less_by key) ys)
        ≡ keep (λ x. has key (key x) ys) (sort (less_by key) xs)
  set_intersection-sort xs ys h =
      set_intersection-keep (sort (less_by key) xs) (sort (less_by key) ys)
        (sort-IsStrictlySorted key xs h) (sort-IsSorted key ys)
      ∙ ap (λ test. keep test (sort (less_by key) xs)) (fun_ext λ x. has-sort key (key x) ys)
