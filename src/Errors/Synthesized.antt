-- ===== src/Errors/Synthesized.antt =====
-- src/errors.rs, lines 189 to 249, 411 to 428 and 466 to 476: the exceptions that the extension makes itself.
-- The interpreter can be attached, or is finalizing; a class that was looked up is kept.
use processkit_py.Common.{Bool, true, false, Option, none, some, List, [], ◌∷◌}
use processkit_py.Errors.{
  PyErr, process_error, idle_timeout, invalid_json, unsupported, wait_timeout,
}

-- The attributes that the three set.
pub data OwnName : Type 0 where
  idle_timeout_seconds program stdout operation : OwnName

-- `try_attach` around `setattr`
when_attached : Bool → List OwnName → List OwnName
when_attached true names = names
when_attached false names = []

unfoldable pub idle_timeout_err : Bool → PyErr × List OwnName
unfolding when_attached
idle_timeout_err attached = (idle_timeout, when_attached attached (idle_timeout_seconds ∷ []))

unfoldable pub invalid_json_line_err : Bool → PyErr × List OwnName
unfolding when_attached
invalid_json_line_err attached = (invalid_json, when_attached attached (program ∷ stdout ∷ []))

unfoldable pub unsupported_err : Bool → PyErr × List OwnName
unfolding when_attached
unsupported_err attached = (unsupported, when_attached attached (operation ∷ []))

-- The class `WaitTimeout`, in the cell and as what the import of `processkit._aio` gives; `C` are
-- classes of Python.
resolve : {C : Type 0} → Option C → Option C → Option C
resolve (some kept) imported = some kept
resolve none imported = imported

-- `constructs` is whether a class takes the message and the keyword.
built : {C : Type 0} → (C → Bool) → Option C → Option PyErr
built constructs none = none
built constructs (some c) = elim (constructs c) [ true ↦ some wait_timeout | false ↦ none ]

unfoldable pub build_wait_timeout :
    {C : Type 0} → (C → Bool) → Option C → Option C → Option C × Option PyErr
unfolding resolve built
build_wait_timeout constructs kept imported =
    (resolve kept imported, built constructs (resolve kept imported))

or_process_error : {C : Type 0} → Option C × Option PyErr → Option C × PyErr
or_process_error (kept, some e) = (kept, e)
or_process_error (kept, none) = (kept, process_error)

-- The cell afterwards, and the exception.
unfoldable pub wait_timeout_err :
    {C : Type 0} → Bool → (C → Bool) → Option C → Option C → Option C × PyErr
unfolding build_wait_timeout or_process_error
wait_timeout_err false constructs kept imported = (kept, process_error)
wait_timeout_err true constructs kept imported =
    or_process_error (build_wait_timeout constructs kept imported)
