-- ===== src/Results/Tests.antt =====
-- Runs of src/result.rs with a concrete `Outcome`.
use processkit_py.Common.{
  ℕ, text_eq, ◌==◌, ◌↔◌, ◌≡◌, refl, Bool, true, false, Option, none, some, ok, err, arith, codes,
}
use processkit_py.Errors.{value_error}
use processkit_py.Results
use processkit_py.Results.{
  CrateOutcome, Polled, ready, Flat, Finished, LifecycleEvent, ProcessEvent, exited, OutputEvent,
  lifecycle_event, reduce_lifecycle, unpickle_lifecycle, reduce_outcome, unpickle_outcome,
  reduce_finished, unpickle_finished,
}
use processkit_py.Results.Pickle.{IsDocumented, unpickle-reduce, unpickle_lifecycle-accepts}
use processkit_py.Results.Hashing.{
  IsStructural, output_eq, finished_eq, lifecycle_eq, feed_outcome, feed_finished, feed_output,
  feed_lifecycle, eq_iff_fed,
}
use processkit_py.Sink.{PyInt, nonnegative}

data Ended : Type 0 where
  by_exit : PyInt → Ended
  by_signal : Option PyInt → Ended
  by_timeout : Ended

exit_of : Ended → Option PyInt
exit_of (by_exit c) = some c
exit_of e = none

signal_of : Ended → Option PyInt
signal_of (by_signal s) = s
signal_of e = none

timeout_of : Ended → Bool
timeout_of by_timeout = true
timeout_of e = false

runs : Results.Reply → Polled Ended
runs Results.timeout = ready (ok by_timeout)
runs (Results.fail c) = ready (ok (by_exit c))
runs (Results.signalled s) = ready (ok (by_signal s))

double : CrateOutcome Ended
unfolding exit_of signal_of timeout_of runs
double = record { code = exit_of; signal = signal_of; timed_out = timeout_of; scripted = runs }

double-IsDocumented : IsDocumented double
unfolding double
double-IsDocumented = record {
  of_timeout = (by_timeout, refl, refl, refl, refl);
  of_fail = λ c. (by_exit c, refl, refl, refl, refl);
  of_signalled = λ s. (by_signal s, refl, refl, refl, refl);
  timeout_alone = λ o h. ground arith;
  code_alone = λ o h. ground arith;
  determined = λ o p c s t. ground arith;
}

abbrev killed : Ended
killed = by_signal (some (nonnegative 9))

abbrev killed_end : Finished Ended
killed_end = record { outcome = killed; stderr = codes "oom" }

unpickle-reduce_example :
    (unpickle_outcome double (reduce_outcome double killed) ≡ ok killed)
    × (unpickle_finished double (reduce_finished double killed_end) ≡ ok killed_end)
    × (unpickle_lifecycle double (reduce_lifecycle double (lifecycle_event (exited killed)))
        ≡ ok (lifecycle_event (exited killed)))
unpickle-reduce_example =
    unpickle-reduce double double-IsDocumented killed killed_end (exited killed)

-- An exit with the code 3.
abbrev pickled : Flat
pickled = record {
  kind = codes "exited";
  pid = none;
  text = none;
  has_outcome = true;
  code = some (nonnegative 3);
  signal = none;
  timed_out = false;
}

abbrev unpickled : LifecycleEvent Ended
unpickled = record {
  kind = Results.Kind.exited;
  pid = none;
  text = none;
  outcome = some (by_exit (nonnegative 3));
}

unpickles : unpickle_lifecycle double pickled ≡ ok unpickled
unfolding unpickle_lifecycle double
unpickles = refl

-- A code and a signal at once.
both_refused :
    unpickle_lifecycle double (record pickled { signal = some (nonnegative 9) }) ≡ err value_error
unfolding unpickle_lifecycle
both_refused = refl

unpickle_lifecycle-accepts_example :
    (reduce_lifecycle double unpickled ≡ pickled)
    × ((event : ProcessEvent Ended) × (lifecycle_event event ≡ unpickled))
unpickle_lifecycle-accepts_example =
    unpickle_lifecycle-accepts double double-IsDocumented pickled unpickled unpickles

-- Runs that end with a code only.
abbrev coded : CrateOutcome ℕ
coded = record {
  code = λ n. some (nonnegative n);
  signal = λ n. none;
  timed_out = λ n. false;
  scripted = λ reply. Polled.pending;
}

abbrev same_code : ℕ → ℕ → Bool
same_code m n = m == n

coded-IsStructural : IsStructural coded same_code
coded-IsStructural = record { shown = λ m n. ground arith }

abbrev line_event : OutputEvent
line_event = record { is_stderr = true; text = codes "oom" }

abbrev ended : ℕ → Finished ℕ
ended n = record { outcome = n; stderr = codes "oom" }

different_codes :
    lifecycle_eq coded same_code (lifecycle_event (exited 1)) (lifecycle_event (exited 2)) ≡ false
unfolding lifecycle_eq lifecycle_event text_eq
different_codes = refl

eq_iff_fed_example :
    (same_code 1 2 ≡ true ↔ (feed_outcome coded same_code 1 ≡ feed_outcome coded same_code 2))
    × (finished_eq coded same_code (ended 1) (ended 2) ≡ true
        ↔ (feed_finished coded same_code (ended 1) ≡ feed_finished coded same_code (ended 2)))
    × (output_eq line_event line_event ≡ true ↔ (feed_output line_event ≡ feed_output line_event))
    × (lifecycle_eq coded same_code (lifecycle_event (exited 1)) (lifecycle_event (exited 2)) ≡ true
        ↔ (feed_lifecycle coded same_code (lifecycle_event (exited 1))
            ≡ feed_lifecycle coded same_code (lifecycle_event (exited 2))))
eq_iff_fed_example =
    eq_iff_fed coded same_code coded-IsStructural 1 2 (ended 1) (ended 2) line_event line_event
      (lifecycle_event (exited 1)) (lifecycle_event (exited 2))
