-- ===== src/Runner/Tasks.antt =====
-- src/runner.rs, lines 30 to 113: the sinks are local to a task, however the tasks are interleaved.
use processkit_py.Common.{
  ℕ, ◌≡◌, refl, Bool, Bool-cases, Option, none, some, List, [], ◌∷◌, ◌++◌, inl, inr, ◌==◌,
  if◌then◌else◌, arith, Text,
}
use processkit_py.Errors.{PyErr}
use processkit_py.Runner.{Sinks, CassetteField, Scrub, command_predicate, cassette_scrubber}
use processkit_py.Runner.Capture.{leave_scope, take_when_error}
use processkit_py.Supervision.{Answer}

-- What happens on a task: a verb begins, a predicate is asked, a field is scrubbed, the innermost verb
-- ends.
pub data Event : Type 0 where
  enters : Event
  asks : Answer → Event
  scrubs : (Text → Text → Scrub) → CassetteField → Text → Event
  leaves : Event

-- What it shows: an answer to a predicate, the text that is recorded, what the unraisable hook is
-- given, the error that a verb raises.
pub data Shown : Type 0 where
  answer : Bool → Shown
  recorded : Text → Shown
  unraisable : PyErr → Shown
  ended : Option PyErr → Shown

hooked : Option PyErr → List Shown → List Shown
hooked none shown = shown
hooked (some e) shown = unraisable e ∷ shown

unfoldable pub step : Event → Sinks → Sinks × List Shown
unfolding command_predicate cassette_scrubber leave_scope take_when_error hooked
step enters sinks = (none ∷ sinks, [])
step (asks a) sinks = let r = command_predicate a sinks in (r.0, hooked r.1 (answer r.2 ∷ []))
step (scrubs callback field text) sinks =
    let r = cassette_scrubber callback field text sinks in (r.0, hooked r.1 (recorded r.2 ∷ []))
step leaves sinks = (leave_scope sinks, ended (take_when_error sinks) ∷ [])

-- One task alone.
unfoldable pub run : List Event → Sinks → Sinks × List Shown
unfolding step
run [] sinks = (sinks, [])
run (e ∷ es) sinks = let r = step e sinks in let s = run es r.0 in (s.0, r.1 ++ s.1)

abbrev pub Tasks : Type 0
Tasks = ℕ → Sinks

unfoldable pub set_task : ℕ → Sinks → Tasks → Tasks
set_task t sinks tasks u = if t == u then sinks else tasks u

-- Many tasks: each event is of the task that stands with it.
unfoldable pub run_tasks : List (ℕ × Event) → Tasks → Tasks × List (ℕ × List Shown)
unfolding step set_task
run_tasks [] tasks = (tasks, [])
run_tasks ((t, e) ∷ trace) tasks =
    let r = step e (tasks t) in
    let s = run_tasks trace (set_task t r.0 tasks) in (s.0, (t, r.1) ∷ s.1)

abbrev pub events_of : ℕ → List (ℕ × Event) → List Event
events_of t [] = []
events_of t ((u, e) ∷ trace) = if u == t then e ∷ events_of t trace else events_of t trace

abbrev pub shown_on : ℕ → List (ℕ × List Shown) → List Shown
shown_on t [] = []
shown_on t ((u, shown) ∷ more) = if u == t then shown ++ shown_on t more else shown_on t more

-- However the tasks are interleaved, each shows what it shows alone, and has the sinks that it has
-- alone: no error crosses from one task to another.
pub run_tasks-isolated :
    (trace : List (ℕ × Event)) (tasks : Tasks) (t : ℕ)
    → (shown_on t (run_tasks trace tasks).1 ≡ (run (events_of t trace) (tasks t)).1)
      × ((run_tasks trace tasks).0 t ≡ (run (events_of t trace) (tasks t)).0)
unfolding run_tasks run set_task
run_tasks-isolated [] tasks t = (refl, refl)
run_tasks-isolated ((u, e) ∷ trace) tasks t =
    let rest = run_tasks-isolated trace (set_task u (step e (tasks u)).0 tasks) t in
    elim (Bool-cases (u == t)) [
      | inl same ↦ ground (arith, rest, same)
      | inr different ↦ ground (arith, rest, different)
    ]
