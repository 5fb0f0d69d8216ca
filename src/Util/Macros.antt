-- ===== src/Util/Macros.antt =====
-- util/status_builder.h and util/status_macros.h.
use Prim.Native.String.{String, ◌++◌}
use private_join_and_compute.Prelude.{Bool, if◌then◌else◌}
use private_join_and_compute.Util.Status.{
  Status, StatusCode, k_internal, k_invalid_argument, make_status, is_ok, annotate,
}
use private_join_and_compute.Util.Result.{Result, require}

-- The stream is the text gathered by `<<`.
pub record StatusBuilder : Type 0 where
  pub status : Status
  pub stream : String

unfoldable pub status_builder : StatusCode → StatusBuilder
unfolding make_status
status_builder code = record { status = make_status code ""; stream = "" }

infixl 20 ◌<<◌
unfoldable pub ◌<<◌ : StatusBuilder → String → StatusBuilder
unfolding is_ok
b << value = if is_ok b.status then b else record b { stream = b.stream ++ value }

unfoldable pub create_status : StatusBuilder → Status
unfolding annotate
create_status b = annotate b.status b.stream

-- The status of `RET_ERROR_CHECK(condition, error_code) << message`.
unfoldable pub ret_error_check : String → StatusCode → String → Status
unfolding status_builder ◌<<◌ create_status
ret_error_check condition error_code message =
    create_status (status_builder error_code << condition << " failed" << message)

-- RET_INTERNAL_CHECK(condition) << message
unfoldable pub ret_internal_check : Bool → String → String → Result (Unit {0})
unfolding ret_error_check
ret_internal_check holds condition message =
    require holds (ret_error_check condition k_internal message)

-- RET_INVALID_ARG_CHECK(condition) << message
unfoldable pub ret_invalid_arg_check : Bool → String → String → Result (Unit {0})
unfolding ret_error_check
ret_invalid_arg_check holds condition message =
    require holds (ret_error_check condition k_invalid_argument message)

-- RETURN_IF_NULL(val)
unfoldable pub return_if_null_status : String → Status
unfolding status_builder ◌<<◌ create_status
return_if_null_status val =
    create_status (status_builder k_invalid_argument << (val ++ " != nullptr"))
