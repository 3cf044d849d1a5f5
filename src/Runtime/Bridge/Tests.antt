-- ===== src/Runtime/Bridge/Tests.antt =====
-- src/runtime.rs: two operations on one loop, and one whose `add_done_callback` raises.
use processkit_py.Common.{
  ℕ, zero, suc, ◌≢◌, ◌≡◌, ◌⊎◌, refl, true, false, Option, none, some, Result, ok, err, arith, ◌>>=◌,
  lookup, contains, remove, insert,
}
use processkit_py.Errors.{PyErr, raised}
use processkit_py.Hub.{HubEntry, new_hub, register, cancel, has_entries}
use processkit_py.Runtime.Completion.{waiting, pending, completed, bridge_result, settle}
use processkit_py.Runtime.Bridge.{Machine, Request, Operation, start_bridge, finish, deliver}
use processkit_py.Runtime.Bridge.Settled.{
  Fresh, Meanwhile, nothing, begins, ends, start_bridge-settles,
}
use processkit_py.Runtime.Bridge.Refused.{Kept, Unused, start_bridge-refused}

abbrev idle_machine : Machine ℕ
idle_machine = record {
  anchors = λ l. none;
  hubs = λ h. new_hub;
  made = 0;
  world = record { futures = λ f. waiting; cells = λ c. pending };
}

abbrev request : ℕ → ℕ → Option PyErr → Request
request f c error = record {
  locals = ok 5;
  future = ok f;
  cell = c;
  create_error = none;
  callback_error = error;
}

abbrev failing : Request
failing = request 1 11 (some (raised 1))

idle_machine-Fresh : (f c : ℕ) → Fresh f c idle_machine
unfolding contains lookup
idle_machine-Fresh f c = record {
  anchored = λ l h anchor. ground arith;
  unready = λ h. refl;
  unshared = λ h k d found. ground arith;
}

abbrev first : Operation
first = record { hub = 0; id = 1; entry = record { future = 1; completion = 11 } }

abbrev second : Operation
second = record { hub = 0; id = 2; entry = record { future = 2; completion = 12 } }

abbrev both_started : Machine ℕ
both_started =
    (start_bridge (request 2 12 none) (start_bridge (request 1 11 none) idle_machine).0).0

first_started : (start_bridge (request 1 11 none) idle_machine).1 ≡ ok first
unfolding start_bridge register
first_started = refl

second_started :
    (start_bridge (request 2 12 none) (start_bridge (request 1 11 none) idle_machine).0).1
    ≡ ok second
unfolding start_bridge register
second_started = refl

second_runs : Meanwhile first false (start_bridge (request 1 11 none) idle_machine).0 both_started
unfolding start_bridge register
second_runs =
    begins (request 2 12 none) nothing (λ f same. ground arith, ground arith) (ground arith)

first_completed : bridge_result {A = ℕ} (completed (ok 7)) ≡ some (ok 7)
unfolding bridge_result
first_completed = refl

abbrev convert : ℕ → Result PyErr ℕ
convert n = ok (n)

start_bridge-settles_example :
    (deliver convert 0 (
        finish true second
          (completed (ok 8))
          (finish true first (completed (ok 7)) both_started))).world.futures
      1
    ≡ settle (ok 7 >>= convert)
start_bridge-settles_example =
    start_bridge-settles (request 1 11 none) 1 idle_machine first both_started
      (finish true second (completed (ok 8)) (finish true first (completed (ok 7)) both_started))
      true (completed (ok 7)) (ok 7) convert refl (idle_machine-Fresh 1 11) first_started
      second_runs first_completed
      (ends true second (completed (ok 8)) nothing (λ same. ground arith) (ground arith))

-- The hub is open, its receive is armed, and it has no operation.
refused_hub_stays :
    (has_entries ((start_bridge failing idle_machine).0.hubs 0) ≡ false)
    × (((start_bridge failing idle_machine).0.hubs 0).closed ≡ false)
unfolding start_bridge has_entries register cancel remove insert
refused_hub_stays = (refl, refl)

-- An operation is under way on one loop when `add_done_callback` raises on another, for which a hub
-- is made.
abbrev busy_machine : Machine ℕ
busy_machine = (start_bridge (request 1 11 none) idle_machine).0

abbrev failing_elsewhere : Request
failing_elsewhere = record (request 2 12 (some (raised 1))) { locals = ok 6 }

busy_unshared :
    (h k : ℕ) (d : HubEntry)
    → lookup k (busy_machine.hubs h).entries ≡ some d
    → (d.future ≢ 2) × (d.completion ≢ 12)
unfolding start_bridge lookup register insert remove
busy_unshared zero k d found = ground arith
busy_unshared (suc h) k d found = ground arith

busy_machine-Fresh : Fresh 2 12 busy_machine
unfolding start_bridge contains lookup register
busy_machine-Fresh = record {
  anchored = λ l h anchor. ground arith;
  unready = λ h. ground arith;
  unshared = λ h k d found. ground (arith, busy_unshared h k d found);
}

busy_machine-Unused : Unused busy_machine
unfolding start_bridge lookup register insert remove
busy_machine-Unused zero = ground arith
busy_machine-Unused (suc h) = ground arith

callback_refused : (start_bridge failing_elsewhere busy_machine).1 ≡ err (raised 1)
unfolding start_bridge register
callback_refused = refl

start_bridge-refused_example :
    Kept busy_machine (start_bridge failing_elsewhere busy_machine).0
    × ((failing_elsewhere.locals ≡ err (raised 1))
        ⊎ (failing_elsewhere.future ≡ err (raised 1))
        ⊎ (failing_elsewhere.create_error ≡ some (raised 1))
        ⊎ (failing_elsewhere.callback_error ≡ some (raised 1)))
start_bridge-refused_example =
    start_bridge-refused failing_elsewhere 2 busy_machine (raised 1) busy_machine-Fresh
      busy_machine-Unused callback_refused
