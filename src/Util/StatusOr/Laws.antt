-- ===== src/Util/StatusOr/Laws.antt =====
-- The sum that the model returns and the class of the source are interchangeable.
use private_join_and_compute.Prelude.{◌≡◌, refl, false, none, some, arith, ◌⊎◌, inl, inr}
use private_join_and_compute.Util.Status.{Status, is_ok}
use private_join_and_compute.Util.Result.{Result, ok, err, die, running}
use private_join_and_compute.Util.StatusOr.{
  StatusOr, from_value, from_status, copy, return_or_assign, returned,
}

-- A callee's error that is not OK.
abbrev pub IsReturn {ℓ} : {A : Type ℓ} → Result A → Type 0
IsReturn (ok a) = Unit
IsReturn (err s) = is_ok s ≡ false
IsReturn die = ⊥
IsReturn running = ⊥

-- What a callee returns and RETURN_OR_ASSIGN takes apart is what the callee computed: its value, or
-- its error, provided that the error is no OK status and that the process lives.
pub return_or_assign-returned {ℓ} :
    {A : Type ℓ} (r : Result A)
    → IsReturn r
    → (s : StatusOr A) × (returned r ≡ some s) × (return_or_assign s ≡ r)
unfolding returned return_or_assign
return_or_assign-returned (ok a) h = (from_value a, refl, refl)
return_or_assign-returned (err s) h = (from_status s, refl, ground arith)
return_or_assign-returned die h = elim h [ ]
return_or_assign-returned running h = elim h [ ]

-- The copy of what a callee returned is what it copies where the callee computed a value, and reads
-- through a null pointer where the callee computed an error.
pub copy-returned {ℓ} :
    {A : Type ℓ} (r : Result A) (s : StatusOr A)
    → returned r ≡ some s
    → ((a : A) × (r ≡ ok a) × (copy s ≡ some s)) ⊎ ((e : Status) × (r ≡ err e) × (copy s ≡ none))
unfolding returned copy
copy-returned (ok a) s h = inl (a, refl, ground arith)
copy-returned (err e) s h = inr (e, refl, ground arith)
copy-returned die s h = ground arith
copy-returned running s h = ground arith
