-- ===== src/Std.antt =====
-- The algorithms of the C++ standard library that the protocol calls. std::sort may leave items that
-- compare equal in any order; this model leaves them in the order of the input.
pub mod Order
pub mod Intersection
use private_join_and_compute.Prelude.{Bool, true, false, not, List, [], ◌∷◌, if◌then◌else◌}

module _ {ℓ} {A : Type ℓ} (less : A → A → Bool) where
  unfoldable pub insert : A → List A → List A
  insert a [] = a ∷ []
  insert a (x ∷ xs) = if less x a then x ∷ insert a xs else a ∷ x ∷ xs

  -- std::sort
  unfoldable pub sort : List A → List A
  unfolding insert
  sort [] = []
  sort (x ∷ xs) = insert x (sort xs)

  -- std::set_intersection: items of the first range, once for each partner in the second.
  unfoldable pub set_intersection : List A → List A → List A
  set_intersection [] ys = []
  set_intersection (x ∷ xs) [] = []
  set_intersection (x ∷ xs) (y ∷ ys) = elim (less x y) [
    | true ↦ set_intersection xs (y ∷ ys)
    | false ↦ elim (less y x) [
      | true ↦ set_intersection (x ∷ xs) ys
      | false ↦ x ∷ set_intersection xs ys
    ]
  ]
