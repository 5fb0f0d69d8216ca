-- ===== src/Prelude/Int/Remainder.antt =====
-- Remainders of signed integers: which numbers an integer is congruent to.
use native.Mathlib.Nat.{add-mul-mod_self_left, div-add-mod, mod-mod, mod-lt, mul-pos}
use private_join_and_compute.Prelude.{
  ℕ, suc, ◌+◌, ◌-◌, ◌*◌, ◌/◌, ◌%◌, ◌<◌, ◌≤◌, ◌≡◌, refl, sym, ap, ◌∙◌, arith, leb, Bool-cases, inl,
  inr,
}
use private_join_and_compute.Prelude.Mod.{mod-add_cong, mod-mul_both, mod_cong_down}
use private_join_and_compute.Prelude.Int.{
  ℤ, pos, negsuc, pos_part, neg_part, sub_ℕ, ◌-ℤ◌, ◌*ℤ◌, mod_ℤ,
}

-- A number and what is missing to the next multiple of m.
pub complement : (c m : ℕ) → 0 < m → m - c % m + c ≡ m * suc (c / m)
complement c m h =
    let below : c % m < m = mod-lt c h in let split = div-add-mod c m in omega (arith, below, split)

pub mod-add_cancel : (a b c m : ℕ) → 0 < m → (a + c) % m ≡ (b + c) % m → a % m ≡ b % m
mod-add_cancel a b c m h e =
    sym (undo a) ∙ mod-add_cong (a + c) (b + c) (m - c % m) (m - c % m) m e refl ∙ undo b
  where
    undo : (a : ℕ) → (a + c + (m - c % m)) % m ≡ a % m
    undo a =
        let full = complement c m h in
        let split : a + c + (m - c % m) ≡ a + m * suc (c / m) = omega (arith, full) in
        ap (λ t. t % m) split ∙ add-mul-mod_self_left a m (suc (c / m))

-- The integer u - v is congruent to x where u is congruent to x + v.
mod-sub_ℕ : (u v x m : ℕ) → 0 < m → (x + v) % m ≡ u % m → mod_ℤ (sub_ℕ u v) m ≡ x % m
mod-sub_ℕ u v x m h e = elim (Bool-cases (leb v u)) [
  | inl t ↦
      let le : v ≤ u = ground (arith, t) in
      let whole : u - v + v ≡ u = omega (arith, le) in
      rw t (unfold mod_ℤ in mod-add_cancel (u - v) x v m h (ap (λ k. k % m) whole ∙ sym e))
  | inr t ↦
      let lt : u < v = ground (arith, t) in
      let w = suc (v - u - 1) in
      let full = complement w m h in
      let split : m - w % m + v ≡ u + m * suc (w / m) = omega (arith, full, lt) in
      rw t (
        unfold mod_ℤ in
        mod-add_cancel (m - w % m) x v m h
          (ap (λ k. k % m) split ∙ add-mul-mod_self_left u m (suc (w / m)) ∙ sym e))
]

parts-mod : (a : ℤ) (x m : ℕ) → 0 < m → mod_ℤ a m ≡ x % m → (x + neg_part a) % m ≡ pos_part a % m
unfolding mod_ℤ
parts-mod (pos n) x m h e = let same : x + 0 ≡ x = omega arith in ap (λ k. k % m) same ∙ sym e
parts-mod (negsuc n) x m h e =
    let full = complement (suc n) m h in
    let split : m - suc n % m + suc n ≡ 0 + m * suc (suc n / m) = omega (arith, full) in
    mod-add_cong x (m - suc n % m) (suc n) (suc n) m (sym e) refl
    ∙ ap (λ k. k % m) split
    ∙ add-mul-mod_self_left 0 m (suc (suc n / m))

pub mod_ℤ-sub :
    (a : ℤ) (b x y m : ℕ)
    → 0 < m
    → mod_ℤ a m ≡ x % m
    → (y + b) % m ≡ x % m
    → mod_ℤ (a -ℤ pos b) m ≡ y % m
unfolding ◌-ℤ◌
mod_ℤ-sub a b x y m h e f =
    let u = pos_part a in
    let v = neg_part a in
    let left : y + (v + b) ≡ y + b + v = omega arith in
    let right : u + 0 ≡ u = omega arith in
    mod-sub_ℕ (u + 0) (v + b) y m h (
      ap (λ k. k % m) left
      ∙ mod-add_cong (y + b) x v v m f refl
      ∙ parts-mod a x m h e
      ∙ ap (λ k. k % m) (sym right))

pub mod_ℤ-mul :
    (a b : ℤ) (x y m : ℕ)
    → 0 < m
    → mod_ℤ a m ≡ x % m
    → mod_ℤ b m ≡ y % m
    → mod_ℤ (a *ℤ b) m ≡ x * y % m
unfolding ◌*ℤ◌
mod_ℤ-mul a b x y m h e f =
    let u = pos_part a in
    let v = neg_part a in
    let u' = pos_part b in
    let v' = neg_part b in
    let first = parts-mod a x m h e in
    let second = parts-mod b y m h f in
    let left : (x * y + (u * v' + v * u')) % m ≡ (x * y + ((x + v) * v' + v * (y + v'))) % m =
      mod-add_cong (x * y) (x * y) (u * v' + v * u') ((x + v) * v' + v * (y + v')) m refl (
        mod-add_cong (u * v') ((x + v) * v') (v * u') (v * (y + v')) m
          (mod-mul_both u (x + v) v' v' m (sym first) refl)
          (mod-mul_both v v u' (y + v') m refl (sym second))) in
    let right : ((x + v) * (y + v') + v * v') % m ≡ (u * u' + v * v') % m =
      mod-add_cong ((x + v) * (y + v')) (u * u') (v * v') (v * v') m
        (mod-mul_both (x + v) u (y + v') u' m first second) refl in
    mod-sub_ℕ (u * u' + v * v') (u * v' + v * u') (x * y) m h
      (left ∙ ap (λ k. k % m) (shuffle x y v v') ∙ right)
  where
    shuffle : (x y v w : ℕ) → x * y + ((x + v) * w + v * (y + w)) ≡ (x + v) * (y + w) + v * w
    shuffle x y v w = omega arith

-- Modulo a divisor.
pub mod_ℤ_down : (a : ℤ) (k p : ℕ) → 0 < k → 0 < p → mod_ℤ a k ≡ mod_ℤ a (k * p) % k
mod_ℤ_down a k p h g =
    let r = mod_ℤ a (k * p) in
    let reduced : r ≡ r % (k * p) = mod_ℤ-mod a (k * p) in
    let parts = parts-mod a r (k * p) (mul-pos h g) reduced in
    let near = mod_cong_down (r + neg_part a) (pos_part a) k p parts in
    sym (mod-parts a k) ∙ mod-sub_ℕ (pos_part a) (neg_part a) r k h near
  where
    mod_ℤ-mod : (a : ℤ) (m : ℕ) → mod_ℤ a m ≡ mod_ℤ a m % m
    mod_ℤ-mod (pos n) m = unfold mod_ℤ in sym (mod-mod n m)
    mod_ℤ-mod (negsuc n) m = unfold mod_ℤ in sym (mod-mod (m - suc n % m) m)

    mod-parts : (a : ℤ) (m : ℕ) → mod_ℤ (sub_ℕ (pos_part a) (neg_part a)) m ≡ mod_ℤ a m
    mod-parts (pos n) m = ap (λ t. mod_ℤ t m) (ground arith)
    mod-parts (negsuc n) m = ap (λ t. mod_ℤ t m) (ground arith)
