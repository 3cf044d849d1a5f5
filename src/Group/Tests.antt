-- ===== src/Group/Tests.antt =====
-- src/group.rs: a group with an operation under way.
use processkit_py.Common.{ℕ, ◌≡◌, refl, Option, some, ok, err, true, false, ◌>>=◌, map_ok, inr}
use processkit_py.Durations.{finite, nonnegative_duration}
use processkit_py.Errors.{process_error}
use processkit_py.Group.{GroupState, begins, opened, group, fire, Reach, start, next}
use processkit_py.Group.Methods.{Method, Op, Barred, stop, requested, call, call-lifetime}
use processkit_py.Presets.Signal.{unix}
use processkit_py.Running.Verbs.{sync, Caller}

abbrev job : ℕ
job = 9

abbrev busy : GroupState ℕ
busy = record { inner = some job; held = 1; torn = 0; updated = 0 }

busy-Reach : Reach job busy
unfolding fire opened group
busy-Reach = next begins start refl

abbrev main_thread : Caller
main_thread = record { pid = 41; owner = 41; inside = false; event_loop = false }

-- A stop with a grace of 1.5 seconds.
abbrev stopping : Method ℕ
stopping = stop (finite false 3 1073) true

in_nanoseconds : requested (unix 64) stopping ≡ ok (stop 1500000000 true)
unfolding requested nonnegative_duration
in_nanoseconds = refl

call-lifetime_example :
    (busy.torn ≡ 0
      → call (unix 64) stopping sync main_thread busy.inner
        ≡ map_ok (λ op. (op, job)) (requested (unix 64) stopping))
    × (busy.torn ≡ 1
        → call (unix 64) stopping sync main_thread busy.inner
          ≡ (requested (unix 64) stopping >>= λ op. err process_error))
    × ((elsewhere : Caller) (slot : Option ℕ) (op : Op ℕ)
        → Barred stopping sync elsewhere
        → requested (unix 64) stopping ≡ ok op
        → call (unix 64) stopping sync elsewhere slot ≡ err process_error)
call-lifetime_example =
    call-lifetime busy-Reach (unix 64) stopping sync main_thread (refl, inr refl)

-- Inside the runtime, a stop of the open group is refused.
stop_refused :
    call (unix 64) stopping sync (record main_thread { inside = true }) (some job)
    ≡ err process_error
unfolding call requested nonnegative_duration
stop_refused = refl
