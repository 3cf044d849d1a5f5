-- ===== src/Errors/Mapping.antt =====
-- src/errors.rs, lines 482 to 635: `map_err_ref`, which turns the crate's error into an exception
-- with attributes. The crate's error is seen through its accessors; an attribute is modelled by its
-- name and by whether its value is something other than `None`.
pub mod Promises
use processkit_py.Common.{Bool, true, false, List, [], ◌∷◌, ◌++◌, if◌then◌else◌}
use processkit_py.Errors.{
  PyErr, process_error, non_zero_exit, signalled, resource_limit, unsupported, output_too_large,
  cancelled_error, timeout, process_not_found, permission_denied,
}

-- `ErrorReason`, as far as the source matches on it; the other variants are `other`. A deadline that
-- is not known is zero; a signal, a search path, or a limit can be missing.
pub data Reason : Type 0 where
  exit cancelled resource_limited unsupported_operation other : Reason
  signalled_by : Bool → Reason
  timed_out : Bool → Reason
  not_found : Bool → Reason
  too_large : Bool → Bool → Reason

-- What the accessors of an error answer; for a value, whether there is one.
pub record CrateError : Type 0 where
  pub is_timeout : Bool
  pub is_not_found : Bool
  pub is_permission_denied : Bool
  pub reason : Reason
  pub program : Bool
  pub code : Bool
  pub stdout : Bool
  pub stderr : Bool
  pub stdout_bytes : Bool
  pub diagnostic : Bool

pub data Name : Type 0 where
  program code stdout stderr stdout_bytes signal diagnostic timeout_seconds searched : Name
  max_lines max_bytes total_lines total_bytes operation : Name

-- The attributes that were set, each with whether its value is not `None`.
abbrev pub Attributes : Type 0
Attributes = List (Name × Bool)

class_of_reason : Reason → PyErr
class_of_reason exit = non_zero_exit
class_of_reason (signalled_by n) = signalled
class_of_reason resource_limited = resource_limit
class_of_reason unsupported_operation = unsupported
class_of_reason (too_large lines bytes) = output_too_large
class_of_reason cancelled = cancelled_error
class_of_reason r = process_error

unfoldable pub class_of : CrateError → PyErr
unfolding class_of_reason
class_of e =
    if e.is_timeout
    then timeout
    else if e.is_not_found
    then process_not_found
    else if e.is_permission_denied
    then permission_denied
    else class_of_reason e.reason

-- `if let Some(value) = ..`
when_some : Name → Bool → Attributes
when_some name true = (name, true) ∷ []
when_some name false = []

-- `stdout_bytes` is set for an error that has `stdout`, even if only to `None`.
bytes_when : Bool → Bool → Attributes
bytes_when true bytes = (stdout_bytes, bytes) ∷ []
bytes_when false bytes = []

of_reason : Reason → Bool → Attributes
unfolding when_some
of_reason (signalled_by n) d = (signal, n) ∷ (diagnostic, d) ∷ []
of_reason (timed_out known) d = when_some timeout_seconds known ++ (diagnostic, d) ∷ []
of_reason exit d = (diagnostic, d) ∷ []
of_reason (not_found path) d = (searched, path) ∷ []
of_reason (too_large lines bytes) d =
    (max_lines, lines) ∷ (max_bytes, bytes) ∷ (total_lines, true) ∷ (total_bytes, true) ∷ []
of_reason unsupported_operation d = (operation, true) ∷ []
of_reason r d = []

-- The Boolean is whether the interpreter can be attached; once it is finalizing, it cannot.
unfoldable pub map_err_ref : Bool → CrateError → PyErr × Attributes
unfolding class_of when_some bytes_when of_reason
map_err_ref false e = (process_error, [])
map_err_ref true e = (
  class_of e,
  when_some program e.program
      ++ when_some code e.code
      ++ when_some stdout e.stdout
      ++ when_some stderr e.stderr
      ++ bytes_when e.stdout e.stdout_bytes
      ++ of_reason e.reason e.diagnostic,
)
