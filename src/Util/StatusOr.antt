-- ===== src/Util/StatusOr.antt =====
-- util/statusor.h and util/statusor.cc: the class that the source returns, with its two fields, and
-- the sum that the other modules use in its place.
pub mod Laws
use private_join_and_compute.Prelude.{Bool, true, false, Option, none, some, if◌then◌else◌}
use private_join_and_compute.Util.Status.{Status, ok_status, unknown_status, internal_error, is_ok}
use private_join_and_compute.Util.Result.{Result, ok, err, die, running}

-- The value is a unique_ptr, null beside an error.
pub record StatusOr {ℓ} (A : Type ℓ) : Type ℓ where
  pub status : Status
  pub value : Option A

-- StatusOrHelper::HandleInvalidStatusCtorArg, in an optimised build
abbrev pub handle_invalid_status_ctor_arg : Status
unfolding internal_error
handle_invalid_status_ctor_arg =
    internal_error "Status::OK is not a valid constructor argument to StatusOr<T>"

module _ {ℓ} {A : Type ℓ} where
  -- StatusOr()
  abbrev pub default_status_or : StatusOr A
  default_status_or = record { status = unknown_status; value = none }

  -- StatusOr(const Status&)
  unfoldable pub from_status : Status → StatusOr A
  unfolding is_ok internal_error
  from_status s = record {
    status = if is_ok s then handle_invalid_status_ctor_arg else s;
    value = none;
  }

  -- StatusOr(const T&), at a T that is no pointer
  unfoldable pub from_value : A → StatusOr A
  from_value a = record { status = ok_status; value = some a }

  -- StatusOr(const StatusOr&) reads `*other.value_`: `none` is the read of a null pointer.
  unfoldable pub copy : StatusOr A → Option (StatusOr A)
  copy other = elim other.value [
    | none ↦ none
    | some a ↦ some (record { status = other.status; value = some a })
  ]

  unfoldable pub status_or_ok : StatusOr A → Bool
  unfolding is_ok
  status_or_ok s = is_ok s.status

  -- ValueOrDie
  unfoldable pub value_or_die : StatusOr A → Result A
  value_or_die s = elim s.value [ none ↦ die | some a ↦ ok a ]

  -- RETURN_OR_ASSIGN: the value, or an early return of the status.
  unfoldable pub return_or_assign : StatusOr A → Result A
  unfolding status_or_ok value_or_die
  return_or_assign s = if status_or_ok s then value_or_die s else err s.status

  -- What a `return` of either state builds; a process that died returns nothing.
  unfoldable pub returned : Result A → Option (StatusOr A)
  unfolding from_value from_status
  returned (ok a) = some (from_value a)
  returned (err s) = some (from_status s)
  returned die = none
  returned running = none
