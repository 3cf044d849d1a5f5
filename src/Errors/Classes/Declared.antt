-- ===== src/Errors/Classes/Declared.antt =====
-- src/errors.rs and the stub file src/processkit/_processkit.pyi: the exceptions for the crate's errors, as
-- instances of the types that the module has.
use processkit_py.Common.{
  ◌≡◌, ◌⊎◌, refl, inl, inr, Bool, true, false, Option, some, List, [], ◌∷◌, ◌++◌, ok, arith, All,
  Text, codes, text_eq, Result-cases, subst,
}
use mathlib.Core.List.{append_assoc, append-nil}
use processkit_py.Errors.{
  PyErr, process_error, non_zero_exit, signalled, resource_limit, unsupported, output_too_large,
  cancelled_error, timeout, process_not_found, permission_denied,
}
use processkit_py.Errors.Mapping.{
  CrateError, Reason, exit, cancelled, resource_limited, unsupported_operation, other, signalled_by,
  timed_out, not_found, too_large, Name, program, code, stdout, stderr, stdout_bytes, signal,
  diagnostic, timeout_seconds, searched, max_lines, max_bytes, total_lines, total_bytes, operation,
  Attributes, map_err_ref,
}
use processkit_py.Errors.Mapping.Promises.{
  Documented, Sets, Promised, class_for, map_err_ref-keeps_promises,
}
use processkit_py.Errors.Classes.{
  Base, process_error_base, exception, timeout_error, file_not_found_error, permission_error,
  ExceptionType, public_package, add_all, single_exceptions, dual_exceptions, init_dual_exceptions,
  register, find, create_exception, make_dual_exception,
}

-- The class statements of the stub file, for the classes of the crate's errors.
abbrev pub stub_name : PyErr → Text
stub_name non_zero_exit = codes "NonZeroExit"
stub_name signalled = codes "Signalled"
stub_name resource_limit = codes "ResourceLimit"
stub_name unsupported = codes "Unsupported"
stub_name output_too_large = codes "OutputTooLarge"
stub_name cancelled_error = codes "Cancelled"
stub_name timeout = codes "Timeout"
stub_name process_not_found = codes "ProcessNotFound"
stub_name permission_denied = codes "PermissionDenied"
stub_name c = codes "ProcessError"

abbrev pub stub_bases : PyErr → List Base
stub_bases timeout = process_error_base ∷ timeout_error ∷ []
stub_bases process_not_found = process_error_base ∷ file_not_found_error ∷ []
stub_bases permission_denied = process_error_base ∷ permission_error ∷ []
stub_bases process_error = exception ∷ []
stub_bases c = process_error_base ∷ []

abbrev streams : List Name
streams = program ∷ stdout ∷ stderr ∷ stdout_bytes ∷ diagnostic ∷ []

abbrev pub stub_attributes : PyErr → List Name
stub_attributes non_zero_exit = code ∷ streams
stub_attributes timeout = timeout_seconds ∷ streams
stub_attributes signalled = signal ∷ streams
stub_attributes process_not_found = program ∷ searched ∷ []
stub_attributes permission_denied = program ∷ []
stub_attributes unsupported = operation ∷ []
stub_attributes output_too_large = program ∷ max_lines ∷ max_bytes ∷ total_lines ∷ total_bytes ∷ []
stub_attributes cancelled_error = program ∷ []
stub_attributes c = []

-- The type has a default for the attribute.
abbrev pub Defaults : Name → List Name → Type 0
Defaults name [] = ⊥
Defaults name (n ∷ ns) = (n ≡ name) ⊎ Defaults name ns

add_all-ok :
    (adds : Text → Option PyErr) (ts m d : List ExceptionType)
    → add_all adds ts m ≡ ok d
    → d ≡ m ++ ts
unfolding add_all
add_all-ok adds [] m d h = ground (arith, append-nil m)
add_all-ok adds (t ∷ ts) m d h =
    ground (arith, add_all-ok adds ts (m ++ t ∷ []) d, append_assoc m (t ∷ []) ts)

register-ok :
    (adds : Text → Option PyErr) (d : List ExceptionType)
    → register adds ≡ ok d
    → d ≡ single_exceptions ++ dual_exceptions
unfolding register init_dual_exceptions
register-ok adds d h = elim (Result-cases (add_all adds single_exceptions [])) [
  | inl (e, failed) ↦ let no_way : ⊥ = ground (arith, failed) in elim no_way [ ]
  | inr (m, added) ↦ ground (
    arith,
    added,
    add_all-ok adds single_exceptions [] m added,
    add_all-ok adds dual_exceptions m d,
  )
]

-- What a name of the module is, and which attributes its instances have besides their own.
abbrev pub Registered : List ExceptionType → PyErr → List Name → Type 0
Registered d c defaults =
    find (stub_name c) d
    ≡ some (record {
      name = stub_name c;
      bases = stub_bases c;
      module_name = public_package;
      defaults = defaults;
    })

abbrev own_defaults : PyErr → List Name
own_defaults timeout = timeout_seconds ∷ []
own_defaults process_not_found = searched ∷ []
own_defaults permission_denied = program ∷ []
own_defaults c = []

found :
    (r : Reason) (denied : Bool)
    → Registered
        (single_exceptions ++ dual_exceptions)
        (class_for r denied)
        (own_defaults (class_for r denied))
unfolding single_exceptions dual_exceptions create_exception make_dual_exception text_eq
found exit denied = refl
found (signalled_by n) denied = refl
found (timed_out known) denied = refl
found (not_found path) denied = refl
found resource_limited denied = refl
found unsupported_operation denied = refl
found (too_large lines bytes) denied = refl
found cancelled denied = refl
found other true = refl
found other false = refl

-- An instance with the attributes `a` has an attribute.
abbrev pub HasAttribute : Attributes → List Name → Name → Type 0
HasAttribute a defaults name = Sets name a ⊎ Defaults name defaults

attributes_present :
    (r : Reason) (denied : Bool) (a : Attributes)
    → Promised (class_for r denied) a
    → All
        (HasAttribute a (own_defaults (class_for r denied)))
        (stub_attributes (class_for r denied))
attributes_present exit denied a p = ground (arith, p)
attributes_present (signalled_by n) denied a p = ground (arith, p)
attributes_present (timed_out known) denied a p = ground (arith, p)
attributes_present (not_found path) denied a p = ground (arith, p)
attributes_present resource_limited denied a p = tt
attributes_present unsupported_operation denied a p = ground (arith, p)
attributes_present (too_large lines bytes) denied a p = ground (arith, p)
attributes_present cancelled denied a p = ground (arith, p)
attributes_present other true a p = ground arith
attributes_present other false a p = tt

-- Once the module has been registered, and if the interpreter can be attached and the crate's accessors
-- answer as documented, the exception for an error of the crate has the class that is for its reason;
-- the module has that class under the name, in the package and with the bases of the stub file, so
-- that three of them are Python's own errors too; and every attribute that the stub file declares for
-- the class is on the exception, or has a default on the class.
pub map_err_ref-declared :
    (adds : Text → Option PyErr) (d : List ExceptionType) (e : CrateError)
    → register adds ≡ ok d
    → Documented e
    → ((map_err_ref true e).0 ≡ class_for e.reason e.is_permission_denied)
      × ((defaults : List Name) × Registered d (map_err_ref true e).0 defaults
          × All
              (HasAttribute (map_err_ref true e).1 defaults)
              (stub_attributes (map_err_ref true e).0))
map_err_ref-declared adds d e done documented =
    let (is_class, promised) = map_err_ref-keeps_promises e documented in
    let c = class_for e.reason e.is_permission_denied in
    let promised' : Promised c (map_err_ref true e).1 =
      subst (λ k. Promised k (map_err_ref true e).1) is_class promised in
    (
      is_class,
      (
        own_defaults c,
        rw (is_class, register-ok adds d done) (found e.reason e.is_permission_denied),
        rw is_class
            (attributes_present e.reason e.is_permission_denied (map_err_ref true e).1 promised'),
      ),
    )
