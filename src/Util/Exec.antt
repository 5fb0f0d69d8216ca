-- ===== src/Util/Exec.antt =====
-- A call that changes a state (an object's fields, the random number generator) and may fail. What
-- was changed before the failure stays changed, so the state comes back beside an error too.
use private_join_and_compute.Prelude.{◌≡◌, refl, Option, List, [], ◌∷◌}
use private_join_and_compute.Util.Result
use private_join_and_compute.Util.Result.{Result, ok, err, die, running, crypto_check}

abbrev pub Exec {ℓ} : Type 0 → Type ℓ → Type ℓ
Exec S A = S → Result A × S

module _ {ℓ} {S : Type 0} {A : Type ℓ} where
  abbrev pub pure : A → Exec S A
  pure a s = (ok a, s)

  abbrev pub lift : Result A → Exec S A
  lift r s = (r, s)

  -- A CRYPTO_CHECK of a call that draws.
  abbrev pub drawn : Option A × S → Result A × S
  drawn (o, s) = (crypto_check o, s)

module _ {ℓ κ} {S : Type 0} {A : Type ℓ} {B : Type κ} where
  abbrev pub continue : Result A → (A → Exec S B) → Exec S B
  continue (ok a) f s = f a s
  continue (err e) f s = (err e, s)
  continue die f s = (die, s)
  continue running f s = (running, s)

  infixl 5 ◌>>=◌ ◌>>◌
  abbrev pub ◌>>=◌ : Exec S A → (A → Exec S B) → Exec S B
  ◌>>=◌ m f s = let (r, s') = m s in continue r f s'

  abbrev pub ◌>>◌ : Exec S A → Exec S B → Exec S B
  m >> k = m >>= λ _. k

-- A last step that cannot fail and leaves the state alone.
pub continue-pure {ℓ κ} :
    {S : Type 0} {A : Type ℓ} {B : Type κ} (r : Result A) (f : A → B) (s : S)
    → continue r (λ a. pure (f a)) s ≡ ((Result.◌>>=◌ r λ a. ok (f a)), s)
continue-pure (ok a) f s = refl
continue-pure (err e) f s = refl
continue-pure die f s = refl
continue-pure running f s = refl

-- Only a call that succeeded goes on to a success.
pub continue-ok {ℓ κ} :
    {S : Type 0} {A : Type ℓ} {B : Type κ} (r : Result A) (next : A → Exec S B) (s s' : S) {b : B}
    → continue r next s ≡ (ok b, s')
    → (a : A) × (r ≡ ok a) × (next a s ≡ (ok b, s'))
continue-ok (ok a) next s s' h = (a, refl, h)
continue-ok (err status) next s s' h = absurd (cc)
continue-ok die next s s' h = absurd (cc)
continue-ok running next s s' h = absurd (cc)

-- A loop that ends at its first failure.
abbrev pub map_exec {ℓ κ} :
    {S : Type 0} {A : Type ℓ} {B : Type κ} → (A → Exec S B) → List A → Exec S (List B)
map_exec f [] = pure []
map_exec f (x ∷ xs) = do y ← f x; ys ← map_exec f xs; pure (y ∷ ys)

-- An object's method works on the object beside the state of the generator.
module _ {ℓ} {O S : Type 0} {A : Type ℓ} where
  abbrev pub beside : Exec S A → Exec (O × S) A
  beside m (o, s) = let (r, s') = m s in (r, (o, s'))

  -- Run on the object's present value.
  abbrev pub with_object : (O → Exec (O × S) A) → Exec (O × S) A
  with_object f (o, s) = f o (o, s)

abbrev pub put_object : {O S : Type 0} → O → Exec (O × S) (Unit {0})
put_object o (_, s) = (ok tt, (o, s))
