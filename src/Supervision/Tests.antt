-- ===== src/Supervision/Tests.antt =====
-- src/supervisor.rs: a supervision whose runner and whose callbacks fail.
use processkit_py.Common.{ℕ, ◌≡◌, refl, inr, false, none, some, List, [], ◌∷◌, ok, err, ◌>>=◌}
use processkit_py.Errors.{PyErr, raised, process_error}
use processkit_py.Runtime.{reject_reentrant_runtime}
use processkit_py.Supervision.{
  no_errors, raises, answers, Consult, runs, stops, checks, consult, consult_all,
}
use processkit_py.Running.Verbs.{sync, Caller, guard}
use processkit_py.Supervision.Ends.{Ending, run_to_end, stop, exit, status, verdict, ends-report}

abbrev to_exception : ℕ → PyErr
to_exception e = process_error

abbrev main_thread : Caller
main_thread = record { pid = 41; owner = 41; inside = false; event_loop = false }

may_block : guard sync main_thread ≡ ok tt
unfolding guard reject_reentrant_runtime
may_block = refl

-- The health check raises before the session is stopped, and a `when` predicate while it is.
abbrev before : List Consult
before = checks (raises (raised 1)) ∷ []

abbrev ending : ℕ → Ending ℕ ℕ
ending session = record {
  consulted = runs (some (raised 2)) ∷ stops (some (answers false)) ∷ [];
  result = ok 5;
  interrupt = none;
}

ends-report_example :
    let cells = consult_all before no_errors in
    let reported = verdict sync to_exception before (ending 3) in
    (run_to_end to_exception sync main_thread ending cells (some 3) ≡ (none, reported))
    × ((g : ℕ)
        → stop to_exception sync main_thread (ok g) (λ grace. ending) cells (some 3)
          ≡ (none, reported))
    × (exit to_exception sync main_thread ending cells (some 3)
        ≡ (none, reported >>= λ outcome. ok false))
    × (run_to_end to_exception sync main_thread ending cells none ≡ (none, err process_error))
    × (exit to_exception sync main_thread ending cells none ≡ (none, ok false))
    × ((T : Type 0) (read : ℕ → T) → status read none ≡ err process_error)
ends-report_example = ends-report to_exception sync main_thread ending before 3 (inr refl) may_block

predicate_first :
    (run_to_end to_exception sync main_thread ending (consult_all before no_errors) (some 3)).1
    ≡ err (raised 2)
unfolding run_to_end consult
predicate_first = refl

-- Ctrl-C while `wait` blocks on a supervision whose callbacks do not fail.
abbrev interrupted : ℕ → Ending ℕ ℕ
interrupted session = record {
  consulted = stops (some (answers false)) ∷ [];
  result = ok 5;
  interrupt = some (raised 9);
}

signal_raises :
    (run_to_end to_exception sync main_thread interrupted no_errors (some 3)).1 ≡ err (raised 9)
unfolding run_to_end consult
signal_raises = refl
