-- ===== src/Supervision.antt =====
-- src/supervisor.rs and src/runner.rs, lines 210 to 315: the callbacks that a supervisor gives to
-- the crate's loop, the two cells in which their errors wait, and what `run` makes of them. The loop
-- itself is the crate's: it consults the callbacks in an order that it chooses.
pub mod Errors
pub mod Session
pub mod Ends
pub mod Setup
pub mod Outcome
mod Tests
use processkit_py.Common.{
  Bool, true, false, Option, none, some, List, [], ◌∷◌, is_some, if◌then◌else◌, Result, err,
  map_error,
}
use processkit_py.Errors.{PyErr}

-- `completed` is the cell of `WhenCaptureRunner`, `slot` the `ErrorSlot` of the other callbacks.
pub record Cells : Type 0 where
  pub completed : Option PyErr
  pub slot : Option PyErr

abbrev pub no_errors : Cells
no_errors = record { completed = none; slot = none }

-- What becomes of a call into Python: the interpreter is finalizing; the argument cannot be built;
-- the callback raises, or its value is no `bool`; it answers.
pub data Answer : Type 0 where
  detached : Answer
  unbuilt raises : PyErr → Answer
  answers : Bool → Answer

-- `GiveUpAttempt`
pub data Attempt : Type 0 where
  crashed failed unknown : Attempt

unfoldable pub record_slot_error : PyErr → Option PyErr → Option PyErr
record_slot_error e none = some e
record_slot_error e (some first) = some first

unfoldable pub take_slot_error : Cells → Cells × Option PyErr
take_slot_error c = (record c { slot = none }, c.slot)

-- `WhenCaptureRunner::record`
unfoldable pub record_when : PyErr → Cells → Cells
record_when e c = record c { completed = some e }

unfoldable pub take_completed_error : Cells → Cells × Option PyErr
take_completed_error c = (record c { completed = none }, c.completed)

unfoldable pub has_completed_error : Cells → Bool
has_completed_error c = is_some c.completed

stash : PyErr → Cells → Cells
unfolding record_slot_error
stash e c = record c { slot = record_slot_error e c.slot }

-- A verb of `WhenCaptureRunner`: what `take_when_error` finds after the inner verb.
unfoldable pub run_incarnation : Option PyErr → Cells → Cells
unfolding record_when
run_incarnation none c = c
run_incarnation (some e) c = record_when e c

-- The closure of `make_stop_predicate`.
unfoldable pub stop_predicate : Answer → Cells → Cells × Bool
unfolding stash
stop_predicate detached c = (c, false)
stop_predicate (unbuilt e) c = (stash e c, true)
stop_predicate (raises e) c = (stash e c, true)
stop_predicate (answers b) c = (c, b)

-- The closure of `make_give_up_classifier`. For a failed launch the argument is the mapped error,
-- which cannot fail to build, and an attempt of an unknown kind does not reach the callback.
unfoldable pub give_up_classifier : Attempt → Answer → Cells → Cells × Bool
unfolding stash
give_up_classifier attempt detached c = (c, false)
give_up_classifier unknown answer c = (c, false)
give_up_classifier crashed (unbuilt e) c = (stash e c, true)
give_up_classifier failed (unbuilt e) c = (c, false)
give_up_classifier attempt (raises e) c = (stash e c, true)
give_up_classifier attempt (answers b) c = (c, b)

-- The closure of `make_health_probe`, which takes no argument.
unfoldable pub health_probe : Answer → Cells → Cells × Bool
unfolding stash
health_probe detached c = (c, true)
health_probe (unbuilt e) c = (c, true)
health_probe (raises e) c = (stash e c, false)
health_probe (answers b) c = (c, b)

-- The stop condition that `PySupervisor::new` installs, over the caller's `stop_when`, if given.
unfoldable pub stop_condition : Option Answer → Cells → Cells × Bool
unfolding stop_predicate has_completed_error
stop_condition user c =
    if has_completed_error c
    then (c, true)
    else elim user [ none ↦ (c, false) | some answer ↦ stop_predicate answer c ]

-- What the crate's loop does with the binding, in whatever order.
pub data Consult : Type 0 where
  runs : Option PyErr → Consult
  stops : Option Answer → Consult
  gives_up : Attempt → Answer → Consult
  checks : Answer → Consult

unfoldable pub consult : Consult → Cells → Cells
unfolding run_incarnation stop_condition give_up_classifier health_probe
consult (runs e) c = run_incarnation e c
consult (stops user) c = (stop_condition user c).0
consult (gives_up attempt answer) c = (give_up_classifier attempt answer c).0
consult (checks answer) c = (health_probe answer c).0

unfoldable pub consult_all : List Consult → Cells → Cells
consult_all [] c = c
consult_all (q ∷ qs) c = consult_all qs (consult q c)

-- `convert_result`, and the same end of `run` and `arun`.
unfoldable pub convert_result : {E O : Type 0} → (E → PyErr) → Result E O → Cells → Result PyErr O
unfolding take_completed_error take_slot_error
convert_result map_err r c = elim (take_completed_error c).1 [
  | some e ↦ err e
  | none ↦ elim (take_slot_error c).1 [ some e ↦ err e | none ↦ map_error map_err r ]
]
