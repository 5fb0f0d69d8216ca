-- ===== src/Protocol/Sealed.antt =====
-- The client's items with the ciphertexts of their values in the place of the values, and what the product
-- of the shared ciphertexts holds.
use native.Mathlib.Nat.{mod-eq_of_lt, mod-lt, mul_assoc, mul-one}
use private_join_and_compute.Prelude.{
  ℕ, suc, ◌+◌, ◌*◌, ◌%◌, ◌^◌, ◌<◌, ◌≡◌, refl, sym, ap, ◌∙◌, subst, List, [], ◌∷◌, map, length, All,
  arith, Bool-cases, inl, inr,
}
use private_join_and_compute.Prelude.Mod.{mod-mul_left}
use private_join_and_compute.Prelude.Bytes.{Bytes}
use private_join_and_compute.Crypto.Paillier.Private.Decrypt.{IsCiphertext, IsCiphertext-mul}
use private_join_and_compute.Std.Order.{has, keep, product, IsDistinct}
use private_join_and_compute.Protocol.Join.{Item, common}

-- The sum of the values of the items.
unfoldable pub sum_of_values : List Item → ℕ
sum_of_values [] = 0
sum_of_values (x ∷ xs) = x.value + sum_of_values xs

-- The items with other numbers beside the texts.
unfoldable pub with_values : List Item → List ℕ → List Item
with_values [] cs = []
with_values (x ∷ xs) [] = []
with_values (x ∷ xs) (c ∷ cs) = record { text = x.text; value = c } ∷ with_values xs cs

-- Each number is a ciphertext that holds the value of its item.
unfoldable pub Sealed : ℕ → ℕ → ℕ → List Item → List ℕ → Type 0
Sealed p q s [] [] = Unit
Sealed p q s [] (c ∷ cs) = ⊥
Sealed p q s (x ∷ xs) [] = ⊥
Sealed p q s (x ∷ xs) (c ∷ cs) = IsCiphertext p q s x.value c × Sealed p q s xs cs

module _ (p q s : ℕ) where
  -- The product of the shared ciphertexts and of another one holds the sum of the shared values and of
  -- the other value.
  pub product-Sealed :
      (items : List Item) (cs : List ℕ) (ys : List Bytes) (m z : ℕ)
      → 0 < (p * q) ^ suc s
      → Sealed p q s items cs
      → z < (p * q) ^ suc s
      → IsCiphertext p q s m z
      → IsCiphertext p q s
          (m + sum_of_values (common items ys))
          (z * product Item.value (common (with_values items cs) ys) % (p * q) ^ suc s)
  unfolding Sealed common keep with_values product sum_of_values
  product-Sealed [] [] ys m z h sealed less holds =
      let N = (p * q) ^ suc s in
      let same : z ≡ z * 1 % N = sym (mod-eq_of_lt less) ∙ ap (λ t. t % N) (sym (mul-one z)) in
      let none : m ≡ m + 0 = omega arith in
      subst (λ k. IsCiphertext p q s k (z * 1 % N)) none
        (subst (λ t. IsCiphertext p q s m t) same holds)
  product-Sealed [] (c ∷ cs) ys m z h sealed less holds = elim sealed [ ]
  product-Sealed (x ∷ xs) [] ys m z h sealed less holds = elim sealed [ ]
  product-Sealed (x ∷ xs) (c ∷ cs) ys m z h sealed less holds =
      let N = (p * q) ^ suc s in
      let rest = product Item.value (common (with_values xs cs) ys) in
      let total = sum_of_values (common xs ys) in
      elim (Bool-cases (has (λ y. y) x.text ys)) [
        | inl e ↦
            let next =
              product-Sealed xs cs ys (m + x.value) (z * c % N) h sealed.1 (mod-lt (z * c) h)
                (IsCiphertext-mul p q s m x.value z c holds sealed.0) in
            let value : z * c % N * rest % N ≡ z * (c * rest) % N =
              mod-mul_left (z * c) rest N ∙ ap (λ t. t % N) (mul_assoc z c rest) in
            let more : m + x.value + total ≡ m + (x.value + total) = omega arith in
            rw e (
              subst (λ k. IsCiphertext p q s k (z * (c * rest) % N)) more
                (subst (λ t. IsCiphertext p q s (m + x.value + total) t) value next))
        | inr e ↦ rw e (product-Sealed xs cs ys m z h sealed.1 less holds)
      ]

  pub length-common-with_values :
      (items : List Item) (cs : List ℕ) (ys : List Bytes)
      → Sealed p q s items cs
      → length (common (with_values items cs) ys) ≡ length (common items ys)
  unfolding Sealed common keep with_values
  length-common-with_values [] cs ys sealed = refl
  length-common-with_values (x ∷ xs) [] ys sealed = elim sealed [ ]
  length-common-with_values (x ∷ xs) (c ∷ cs) ys sealed =
      ground (arith, length-common-with_values xs cs ys sealed.1)

  pub texts-with_values :
      (items : List Item) (cs : List ℕ)
      → Sealed p q s items cs
      → map Item.text (with_values items cs) ≡ map Item.text items
  unfolding Sealed with_values
  texts-with_values [] cs sealed = refl
  texts-with_values (x ∷ xs) [] sealed = elim sealed [ ]
  texts-with_values (x ∷ xs) (c ∷ cs) sealed = ap (◌∷◌ x.text) (texts-with_values xs cs sealed.1)

  -- What holds of all the texts.
  pub All-with_values {ℓ} :
      (P : Bytes → Type ℓ) (items : List Item) (cs : List ℕ)
      → All (λ x. P x.text) items
      → All (λ x. P x.text) (with_values items cs)
  unfolding with_values
  All-with_values P [] cs h = tt
  All-with_values P (x ∷ xs) [] h = tt
  All-with_values P (x ∷ xs) (c ∷ cs) h = (h.0, All-with_values P xs cs h.1)

  has-with_values :
      (k : Bytes) (items : List Item) (cs : List ℕ)
      → Sealed p q s items cs
      → has Item.text k (with_values items cs) ≡ has Item.text k items
  unfolding Sealed with_values has
  has-with_values k [] cs sealed = refl
  has-with_values k (x ∷ xs) [] sealed = elim sealed [ ]
  has-with_values k (x ∷ xs) (c ∷ cs) sealed = rw (has-with_values k xs cs sealed.1) refl

  pub IsDistinct-with_values :
      (items : List Item) (cs : List ℕ)
      → Sealed p q s items cs
      → IsDistinct Item.text items
      → IsDistinct Item.text (with_values items cs)
  unfolding Sealed with_values
  IsDistinct-with_values [] cs sealed h = tt
  IsDistinct-with_values (x ∷ xs) [] sealed h = elim sealed [ ]
  IsDistinct-with_values (x ∷ xs) (c ∷ cs) sealed h =
      (has-with_values x.text xs cs sealed.1 ∙ h.0, IsDistinct-with_values xs cs sealed.1 h.1)
