-- ===== src/Runner/Tests.antt =====
-- Runs of src/runner.rs on concrete callbacks.
use processkit_py.Common.{
  ℕ, suc, ◌≡◌, ◌≢◌, ◌⊎◌, refl, false, none, some, List, [], ◌∷◌, ok, err, Text, codes,
}
use processkit_py.Errors.{raised, process_error}
use processkit_py.Runner.{Scrub, fails, failed_replacement, cassette_scrubber, stdout}
use processkit_py.Runner.Capture.{
  Future, asks, nests, first_error, run_future, with_when_capture, with_when_capture-raises_first,
}
use processkit_py.Runner.Doubles.{
  Action, begins, extracts, reconfigures, Holds, fresh, acts, reconfigure, in_flight_current,
}
use processkit_py.Supervision.{raises, answers}

-- A verb in which another verb runs, whose predicate fails first; then two predicates of its own fail.
abbrev nested_failure : Future
nested_failure = asks (answers false) (
    nests (asks (raises (raised 1)) Future.ends)
      (asks (raises (raised 2)) (asks (raises (raised 3)) Future.ends)))

second_raised : with_when_capture {A = ℕ} nested_failure (ok 0) [] ≡ ([], err (raised 2))
unfolding with_when_capture
second_raised = refl

with_when_capture-raises_first_example :
    (with_when_capture {A = ℕ} nested_failure (ok 0) (none ∷ [])
      ≡ (none ∷ [], elim (first_error nested_failure) [ some e ↦ err e | none ↦ ok 0 ]))
    × ((run_future nested_failure (none ∷ none ∷ [])).1 ≡ [])
with_when_capture-raises_first_example =
    with_when_capture-raises_first nested_failure (ok 0) (none ∷ [])

-- A call begins, the double is reconfigured in vain, the call ends, and it is reconfigured; then a
-- client is given the double, and keeps it.
abbrev some_actions : List (Action ℕ)
some_actions = begins 5 ∷ reconfigures suc ∷ Action.ends 5 ∷ reconfigures suc ∷ extracts 6 ∷ []

in_flight_current_example :
    Holds (acts some_actions (fresh 0)).guard (acts some_actions (fresh 0)).clones
    × ((((acts some_actions (fresh 0)).clones ≡ [])
          × ((reconfigure suc (acts some_actions (fresh 0))).1 ≡ ok tt)
          × ((reconfigure suc (acts some_actions (fresh 0))).0.guard.runner
              ≡ suc (acts some_actions (fresh 0)).guard.runner))
        ⊎ (((acts some_actions (fresh 0)).clones ≢ [])
            × (reconfigure suc (acts some_actions (fresh 0))
                ≡ (acts some_actions (fresh 0), err process_error))))
in_flight_current_example = in_flight_current some_actions 0 suc

one_rebuilt : (acts some_actions (fresh 0)).guard.runner ≡ 1
unfolding acts fresh
one_rebuilt = refl

-- A scrubber that fails on what it is given.
abbrev failing : Text → Text → Scrub
failing field text = fails (raised 4)

secret_replaced :
    cassette_scrubber failing stdout (codes "secret") (none ∷ [])
    ≡ (some (raised 4) ∷ [], none, failed_replacement)
unfolding cassette_scrubber
secret_replaced = refl
