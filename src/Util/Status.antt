-- ===== src/Util/Status.antt =====
-- util/status.h, util/status.cc and util/canonical_errors.cc.
pub mod Laws
use Prim.Native.String.{String, ◌++◌}
use text.Mathlib.Text.{◌==◌}
use private_join_and_compute.Prelude.{ℕ, Bool, true, ◌&&◌, not, if◌then◌else◌, ◌==◌ as nat_eq}

pub data StatusCode : Type 0 where
  k_ok k_cancelled k_unknown k_invalid_argument k_deadline_exceeded k_not_found : StatusCode
  k_already_exists k_permission_denied k_resource_exhausted k_failed_precondition : StatusCode
  k_aborted k_out_of_range k_unimplemented k_internal k_unavailable k_data_loss : StatusCode
  k_unauthenticated k_reserved : StatusCode

-- The values of the enumerators.
unfoldable pub code_number : StatusCode → ℕ
code_number k_ok = 0
code_number k_cancelled = 1
code_number k_unknown = 2
code_number k_invalid_argument = 3
code_number k_deadline_exceeded = 4
code_number k_not_found = 5
code_number k_already_exists = 6
code_number k_permission_denied = 7
code_number k_resource_exhausted = 8
code_number k_failed_precondition = 9
code_number k_aborted = 10
code_number k_out_of_range = 11
code_number k_unimplemented = 12
code_number k_internal = 13
code_number k_unavailable = 14
code_number k_data_loss = 15
code_number k_unauthenticated = 16
code_number k_reserved = 20

-- `code == other`, on the enumerators' values.
abbrev pub code_eq : StatusCode → StatusCode → Bool
unfolding code_number
code_eq a b = nat_eq (code_number a) (code_number b)

pub record Status : Type 0 where
  pub code : StatusCode
  pub message : String

-- Status(error, error_message): an OK status keeps no message.
unfoldable pub make_status : StatusCode → String → Status
unfolding code_eq
make_status error error_message =
    if code_eq error k_ok
    then record { code = error; message = "" }
    else record { code = error; message = error_message }

-- Status(), OkStatus(), Status::OK
abbrev pub ok_status : Status
ok_status = record { code = k_ok; message = "" }

-- Status::CANCELLED
abbrev pub cancelled_status : Status
unfolding make_status
cancelled_status = make_status k_cancelled ""

-- Status::UNKNOWN
abbrev pub unknown_status : Status
unfolding make_status
unknown_status = make_status k_unknown ""

unfoldable pub is_ok : Status → Bool
unfolding code_eq
is_ok s = code_eq s.code k_ok

unfoldable pub status_eq : Status → Status → Bool
unfolding code_eq
status_eq s other = code_eq s.code other.code && (s.message == other.message)

unfoldable pub status_ne : Status → Status → Bool
unfolding status_eq
status_ne s other = not (status_eq s other)

-- How `ostream << code_` prints the enumerator: its value in decimal.
unfoldable pub code_text : StatusCode → String
code_text k_ok = "0"
code_text k_cancelled = "1"
code_text k_unknown = "2"
code_text k_invalid_argument = "3"
code_text k_deadline_exceeded = "4"
code_text k_not_found = "5"
code_text k_already_exists = "6"
code_text k_permission_denied = "7"
code_text k_resource_exhausted = "8"
code_text k_failed_precondition = "9"
code_text k_aborted = "10"
code_text k_out_of_range = "11"
code_text k_unimplemented = "12"
code_text k_internal = "13"
code_text k_unavailable = "14"
code_text k_data_loss = "15"
code_text k_unauthenticated = "16"
code_text k_reserved = "20"

-- Status::ToString, which operator<< prints.
unfoldable pub to_string : Status → String
unfolding code_eq code_text
to_string s = if code_eq s.code k_ok then "OK" else code_text s.code ++ ": " ++ s.message

unfoldable pub annotate : Status → String → Status
unfolding is_ok make_status
annotate s msg =
    if is_ok s
    then s
    else if msg == ""
    then s
    else make_status s.code (if s.message == "" then msg else s.message ++ "; " ++ msg)

unfoldable pub internal_error : String → Status
unfolding make_status
internal_error message = make_status k_internal message

unfoldable pub invalid_argument_error : String → Status
unfolding make_status
invalid_argument_error message = make_status k_invalid_argument message

unfoldable pub is_internal : Status → Bool
unfolding code_eq
is_internal s = code_eq s.code k_internal

unfoldable pub is_invalid_argument : Status → Bool
unfolding code_eq
is_invalid_argument s = code_eq s.code k_invalid_argument
