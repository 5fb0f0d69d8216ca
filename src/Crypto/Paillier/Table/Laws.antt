-- ===== src/Crypto/Paillier/Table/Laws.antt =====
-- BigNumTable: what is found after an insertion.
use native.Mathlib.Nat.{mul-add-mod_self_right, mod-eq_of_lt}
use private_join_and_compute.Prelude.{
  ℕ, zero, suc, ◌+◌, ◌*◌, ◌%◌, ◌<◌, ◌≡◌, refl, sym, ap, ◌∙◌, none, some, ◌∷◌, true, ltb, ◌==◌,
  ==_iff, subst, Bool-cases, Option-cases, inl, inr, arith,
}
use private_join_and_compute.Util.Result.{ok}
use private_join_and_compute.Crypto.BigNum.{BigNum}
use private_join_and_compute.Crypto.Paillier.Table.{BigNumTable, make_table, find, insert, get}

times_inj : (x y c : ℕ) → 0 < c → x * c ≡ y * c → x ≡ y
times_inj zero zero c h e = refl
times_inj zero (suc y) c h e = absurd (omega (arith, h, e))
times_inj (suc x) zero c h e = absurd (omega (arith, h, e))
times_inj (suc x) (suc y) c h e = ap suc (times_inj x y c h (omega (arith, e)))

-- Two cells have different keys.
key_inj : (x y x' y' c : ℕ) → y < c → y' < c → x * c + y ≡ x' * c + y' → (x ≡ x') × (y ≡ y')
key_inj x y x' y' c h h' e =
    let low : y ≡ y' =
      sym (mul-add-mod_self_right x c y ∙ mod-eq_of_lt h)
      ∙ ap (λ t. t % c) e
      ∙ mul-add-mod_self_right x' c y'
      ∙ mod-eq_of_lt h' in
    (times_inj x x' c (omega (arith, h)) (omega (arith, e, low)), low)

-- The cell is filled.
pub Has : BigNumTable → ℕ → ℕ → Type 0
Has t x y = (b : BigNum) × (find (x * t.column_length + y) t.table ≡ some b)

-- What is found in the one is found in the other too.
pub Kept : BigNumTable → BigNumTable → Type 0
Kept t t' =
    (t'.column_length ≡ t.column_length)
    × ((key : ℕ) (b : BigNum) → find key t.table ≡ some b → find key t'.table ≡ some b)

pub Kept-Has : (t t' : BigNumTable) (x y : ℕ) → Kept t t' → Has t x y → Has t' x y
unfolding Kept Has
Kept-Has t t' x y kept (b, found) =
    (b, ap (λ c. find (x * c + y) t'.table) kept.0 ∙ kept.1 (x * t.column_length + y) b found)

pub Kept-Kept : (t t' t'' : BigNumTable) → Kept t t' → Kept t' t'' → Kept t t''
unfolding Kept
Kept-Kept t t' t'' first second =
    (second.0 ∙ first.0, λ key b found. second.1 key b (first.1 key b found))

pub Kept-column_length : (t t' : BigNumTable) → Kept t t' → t'.column_length ≡ t.column_length
unfolding Kept
Kept-column_length t t' kept = kept.0

pub Kept-refl : (t : BigNumTable) → Kept t t
unfolding Kept
Kept-refl t = (refl, λ key b found. found)

module _ (Valid : ℕ → ℕ → BigNum → Type 0) where
  -- Every cell that is filled holds a valid number.
  pub IsSound : BigNumTable → Type 0
  IsSound t =
      (x y : ℕ) (b : BigNum)
      → y < t.column_length
      → find (x * t.column_length + y) t.table ≡ some b
      → Valid x y b

  pub IsSound-make_table : (column_length : ℕ) → IsSound (make_table column_length)
  unfolding IsSound make_table find
  IsSound-make_table column_length x y b h found = absurd (cc found)

  pub get_lem :
      (t : BigNumTable) (x y : ℕ)
      → y < t.column_length
      → IsSound t
      → Has t x y
      → (b : BigNum) × (get t x y ≡ ok b) × Valid x y b
  unfolding get Has IsSound
  get_lem t x y h sound (b, found) =
      let inside : ltb y t.column_length ≡ true = ground (arith, h) in
      (b, rw (inside, found) refl, sound x y b h found)

  IsSound-added :
      (t : BigNumTable) (x y : ℕ) (num : BigNum)
      → y < t.column_length
      → IsSound t
      → Valid x y num
      → IsSound (record t { table = (x * t.column_length + y, num) ∷ t.table })
  unfolding IsSound find
  IsSound-added t x y num h sound valid x' y' b h' found =
      let c = t.column_length in
      elim (Bool-cases (x * c + y == x' * c + y')) [
        | inl e ↦
            let (same_x, same_y) =
              key_inj x y x' y' c h h' ((==_iff (x * c + y) (x' * c + y')).0 e) in
            let same : some num ≡ some b = rw e at found in
            let same_num : num ≡ b = cc same in
            subst (λ v. Valid x' y' v) same_num
              (subst (λ v. Valid v y' num) same_x (subst (λ v. Valid x v num) same_y valid))
        | inr e ↦ sound x' y' b h' (rw e at found)
      ]

  Kept-added :
      (t : BigNumTable) (x y : ℕ) (num : BigNum)
      → find (x * t.column_length + y) t.table ≡ none
      → Kept t (record t { table = (x * t.column_length + y, num) ∷ t.table })
  unfolding Kept find
  Kept-added t x y num free = (
    refl,
    λ key b found.
        let here = x * t.column_length + y in
        elim (Bool-cases (here == key)) [
          | inl e ↦
              let same = (==_iff here key).0 e in
              absurd (let clash = sym free ∙ ap (λ k. find k t.table) same ∙ found in cc clash)
          | inr e ↦ rw e found
        ],
  )

  pub insert_lem :
      (t : BigNumTable) (x y : ℕ) (num : BigNum)
      → y < t.column_length
      → IsSound t
      → Valid x y num
      → (t' : BigNumTable) × (insert t x y num ≡ ok t') × IsSound t' × Kept t t' × Has t' x y
  unfolding insert Has find
  insert_lem t x y num h sound valid =
      let here = x * t.column_length + y in
      let inside : ltb y t.column_length ≡ true = ground (arith, h) in
      elim (Option-cases (find here t.table)) [
        | inl free ↦
            let met : (here == here) ≡ true = ground arith in
            (
              record t { table = (here, num) ∷ t.table },
              rw (inside, free) refl,
              IsSound-added t x y num h sound valid,
              Kept-added t x y num free,
              (num, rw met refl),
            )
        | inr (old, found) ↦ (t, rw (inside, found) refl, sound, Kept-refl t, (old, found))
      ]
