-- ===== src/Errors/Classes.antt =====
-- src/errors.rs, lines 26 to 187: the exception types that the module registers, and their bases. A step
-- of Python that creates a type or gives it an attribute is taken not to raise; adding a name may.
pub mod Declared
use processkit_py.Common.{
  Option, none, some, List, [], ◌∷◌, ◌++◌, if◌then◌else◌, Result, ok, err, ◌>>=◌, Text, codes,
  text_eq,
}
use processkit_py.Errors.{PyErr}
use processkit_py.Errors.Mapping.{Name, program, timeout_seconds, searched}

-- A base: `ProcessError`, or a class of Python.
pub data Base : Type 0 where
  process_error_base exception timeout_error file_not_found_error permission_error : Base

-- A type, with its bases in order, and the attributes that it has itself, as `None`.
pub record ExceptionType : Type 0 where
  pub name : Text
  pub bases : List Base
  pub module_name : Text
  pub defaults : List Name

abbrev pub public_package : Text
public_package = codes "processkit"

-- `create_exception!`, with the name of the module that `register` gives it.
unfoldable pub create_exception : Text → Base → ExceptionType
create_exception name base = record {
  name = name;
  bases = base ∷ [];
  module_name = public_package;
  defaults = [];
}

unfoldable pub make_dual_exception : Text → Base → ExceptionType
make_dual_exception name native_base = record {
  name = name;
  bases = process_error_base ∷ native_base ∷ [];
  module_name = public_package;
  defaults = [];
}

-- `m.add`, in order; `adds` says what adding a name raises.
unfoldable pub add_all :
    (Text → Option PyErr)
    → List ExceptionType
    → List ExceptionType
    → Result PyErr (List ExceptionType)
add_all adds [] m = ok m
add_all adds (t ∷ ts) m =
    let rest = add_all adds ts (m ++ t ∷ []) in elim (adds t.name) [ some e ↦ err e | none ↦ rest ]

unfoldable pub single_exceptions : List ExceptionType
unfolding create_exception
single_exceptions =
    create_exception (codes "ProcessError") exception
    ∷ create_exception (codes "NonZeroExit") process_error_base
    ∷ create_exception (codes "Signalled") process_error_base
    ∷ create_exception (codes "ResourceLimit") process_error_base
    ∷ create_exception (codes "Unsupported") process_error_base
    ∷ create_exception (codes "OutputTooLarge") process_error_base
    ∷ create_exception (codes "Cancelled") process_error_base
    ∷ create_exception (codes "IdleTimeout") process_error_base
    ∷ create_exception (codes "InvalidJson") process_error_base
    ∷ []

unfoldable pub dual_exceptions : List ExceptionType
unfolding make_dual_exception
dual_exceptions =
    record (make_dual_exception (codes "Timeout") timeout_error) { defaults = timeout_seconds ∷ [] }
    ∷ record (make_dual_exception (codes "ProcessNotFound") file_not_found_error) {
      defaults = searched ∷ [];
    }
    ∷ record (make_dual_exception (codes "PermissionDenied") permission_error) {
      defaults = program ∷ [];
    }
    ∷ []

unfoldable pub init_dual_exceptions :
    (Text → Option PyErr) → List ExceptionType → Result PyErr (List ExceptionType)
unfolding add_all dual_exceptions
init_dual_exceptions adds m = add_all adds dual_exceptions m

unfoldable pub register : (Text → Option PyErr) → Result PyErr (List ExceptionType)
unfolding add_all single_exceptions init_dual_exceptions
register adds = add_all adds single_exceptions [] >>= init_dual_exceptions adds

-- A name of the module.
abbrev pub find : Text → List ExceptionType → Option ExceptionType
find name [] = none
find name (t ∷ ts) = if text_eq t.name name then some t else find name ts
