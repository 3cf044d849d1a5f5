-- ===== src/Errors/Mapping/Promises.antt =====
-- src/errors.rs and the stub file: the attributes of the exception for each class.
use processkit_py.Common.{◌≡◌, ◌⊎◌, refl, Bool, true, false, [], ◌∷◌, arith}
use processkit_py.Errors.{
  PyErr, process_error, non_zero_exit, signalled, resource_limit, unsupported, output_too_large,
  cancelled_error, timeout, process_not_found, permission_denied,
}
use processkit_py.Errors.Mapping.{
  Reason, exit, cancelled, resource_limited, unsupported_operation, other, signalled_by, timed_out,
  not_found, too_large, CrateError, Name, program, code, stdout, stderr, stdout_bytes, signal,
  diagnostic, searched, max_lines, max_bytes, total_lines, total_bytes, operation, Attributes,
  map_err_ref,
}

-- The attribute is set.
abbrev pub Sets : Name → Attributes → Type 0
Sets name [] = ⊥
Sets name ((n, b) ∷ rest) = (n ≡ name) ⊎ Sets name rest

-- The reasons that carry the run's output.
abbrev pub bears_streams : Reason → Bool
bears_streams exit = true
bears_streams (signalled_by n) = true
bears_streams (timed_out known) = true
bears_streams r = false

abbrev pub is_timed_out : Reason → Bool
is_timed_out (timed_out known) = true
is_timed_out r = false

abbrev pub is_missing : Reason → Bool
is_missing (not_found path) = true
is_missing r = false

abbrev pub may_be_denied : Reason → Bool
may_be_denied other = true
may_be_denied r = false

-- The reasons that name the program.
abbrev pub names_program : Reason → Bool
names_program (too_large lines bytes) = true
names_program cancelled = true
names_program (not_found path) = true
names_program r = bears_streams r

abbrev pub is_exit : Reason → Bool
is_exit exit = true
is_exit r = false

-- What the crate documents of its accessors: which reasons are a timeout, which are a missing
-- program, that only a failed spawn or an I/O error is a denied permission, that exactly the reasons
-- that bear streams have an output, on both streams, that an exit has a code, and which reasons name
-- the program.
pub record Documented (e : CrateError) : Type 0 where
  pub timeouts : e.is_timeout ≡ is_timed_out e.reason
  pub missing : e.is_not_found ≡ is_missing e.reason
  pub denied : e.is_permission_denied ≡ true → may_be_denied e.reason ≡ true
  pub outputs : e.stdout ≡ bears_streams e.reason
  pub errors : e.stderr ≡ bears_streams e.reason
  pub codes : is_exit e.reason ≡ true → e.code ≡ true
  pub named : names_program e.reason ≡ true → e.program ≡ true

-- The streams that the stub file declares for three classes, whatever the verb that raised them.
abbrev pub Streams : Attributes → Type 0
Streams a = Sets program a × Sets stdout a × Sets stderr a × Sets stdout_bytes a × Sets diagnostic a

-- The attributes that the stub file declares for the class, those with a default on the class left
-- out.
abbrev pub Promised : PyErr → Attributes → Type 0
Promised non_zero_exit a = Streams a × Sets code a
Promised timeout a = Streams a
Promised signalled a = Streams a × Sets signal a
Promised process_not_found a = Sets program a × Sets searched a
Promised cancelled_error a = Sets program a
Promised output_too_large a =
    Sets program a × Sets max_lines a × Sets max_bytes a × Sets total_lines a × Sets total_bytes a
Promised unsupported a = Sets operation a
Promised c a = Unit

-- The class for each reason; a denied permission is recognised by its accessor.
abbrev pub class_for : Reason → Bool → PyErr
class_for exit denied = non_zero_exit
class_for (signalled_by n) denied = signalled
class_for (timed_out known) denied = timeout
class_for (not_found path) denied = process_not_found
class_for resource_limited denied = resource_limit
class_for unsupported_operation denied = unsupported
class_for (too_large lines bytes) denied = output_too_large
class_for cancelled denied = cancelled_error
class_for other true = permission_denied
class_for other false = process_error

by_reason :
    (r : Reason) (e : CrateError)
    → Documented e
    → e.reason ≡ r
    → ((map_err_ref true e).0 ≡ class_for e.reason e.is_permission_denied)
      × Promised (map_err_ref true e).0 (map_err_ref true e).1
unfolding map_err_ref
by_reason exit e d h = ground (arith, d, d.denied, d.codes, d.named)
by_reason cancelled e d h = ground (arith, d, d.denied, d.codes, d.named)
by_reason resource_limited e d h = ground (arith, d, d.denied, d.codes, d.named)
by_reason unsupported_operation e d h = ground (arith, d, d.denied, d.codes, d.named)
by_reason other e d h = ground (arith, d, d.denied, d.codes, d.named)
by_reason (signalled_by n) e d h = ground (arith, d, d.denied, d.codes, d.named)
by_reason (timed_out known) e d h = ground (arith, d, d.denied, d.codes, d.named)
by_reason (not_found path) e d h = ground (arith, d, d.denied, d.codes, d.named)
by_reason (too_large lines bytes) e d h = ground (arith, d, d.denied, d.codes, d.named)

-- If the interpreter can be attached and the crate's accessors answer as documented, the class of the
-- exception is that of the error's reason, and the exception has every attribute that the stub file
-- declares for its class, those with a default on the class left out.
pub map_err_ref-keeps_promises :
    (e : CrateError)
    → Documented e
    → ((map_err_ref true e).0 ≡ class_for e.reason e.is_permission_denied)
      × Promised (map_err_ref true e).0 (map_err_ref true e).1
map_err_ref-keeps_promises e d = by_reason e.reason e d refl
