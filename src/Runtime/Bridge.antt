-- ===== src/Runtime/Bridge.antt =====
-- src/runtime.rs, lines 690 to 883: how an awaited operation gets its hub, its Future and its task,
-- and how the outcome of the task gets back. Loops, hubs, Futures and cells are identities; the
-- interpreter runs one of these steps at a time.
pub mod Hubs
pub mod InFlight
pub mod Outcome
pub mod Settled
pub mod Refused
mod Tests
use processkit_py.Common.{ℕ, suc, Bool, true, Option, none, some, Result, ok, err, if◌then◌else◌}
use processkit_py.Errors.{PyErr, process_error}
use processkit_py.Hub.{HubEntry, CompletionHub, new_hub, register, cancel, publish, is_closed}
use processkit_py.Hub.System.{CallbackResult, received, wake_callback, idle_callback}
use processkit_py.Runtime.Completion.{
  World, waiting, pending, Joined, bridge_result, complete_all, store, update,
}

-- `anchors` is `COMPLETION_HUBS`, with the hub of each anchor; `made` counts the hubs.
pub record Machine (A : Type 0) : Type 0 where
  pub anchors : ℕ → Option ℕ
  pub hubs : ℕ → CompletionHub
  pub made : ℕ
  pub world : World A

-- What a call of `start_bridge` meets: the loop of its context, the new Future, the new cell, what the
-- creation of a hub raises, if it comes to that, and what `add_done_callback` raises.
pub record Request : Type 0 where
  pub locals : Result PyErr ℕ
  pub future : Result PyErr ℕ
  pub cell : ℕ
  pub create_error : Option PyErr
  pub callback_error : Option PyErr

-- An operation with a task: its hub, its identifier there, and its entry.
pub record Operation : Type 0 where
  pub hub : ℕ
  pub id : ℕ
  pub entry : HubEntry

module _ {A : Type 0} where
  abbrev pub set_hub : ℕ → CompletionHub → Machine A → Machine A
  set_hub h hub m = record m { hubs = update m.hubs h hub }

  unfoldable pub create_completion_hub : Option PyErr → ℕ → Machine A → Machine A × Result PyErr ℕ
  create_completion_hub (some e) event_loop m = (m, err e)
  create_completion_hub none event_loop m = (
    record m {
      anchors = update m.anchors event_loop (some m.made);
      hubs = update m.hubs m.made new_hub;
      made = suc m.made;
    },
    ok m.made,
  )

  -- An anchor whose hub is open is used again.
  pub existing_or : Option ℕ → Machine A → Machine A × Result PyErr ℕ → Machine A × Result PyErr ℕ
  unfolding is_closed
  existing_or none m made = made
  existing_or (some h) m made = if is_closed (m.hubs h) then made else (m, ok h)

  unfoldable pub completion_hub : Option PyErr → ℕ → Machine A → Machine A × Result PyErr ℕ
  unfolding existing_or create_completion_hub
  completion_hub create_error event_loop m =
      existing_or (m.anchors event_loop) m (create_completion_hub create_error event_loop m)

  -- `add_done_callback`; if it raises, the operation is taken out of the hub again.
  pub hooked :
      Option PyErr → ℕ → HubEntry → Option ℕ → Machine A → Machine A × Result PyErr Operation
  hooked error h e none m = (m, err process_error)
  hooked none h e (some id) m = (m, ok (record { hub = h; id = id; entry = e }))
  hooked (some error) h e (some id) m = (set_hub h (cancel id (m.hubs h)) m, err error)

  pub registered :
      Option PyErr → HubEntry → Machine A × Result PyErr ℕ → Machine A × Result PyErr Operation
  unfolding hooked
  registered hook e (m, err error) = (m, err error)
  registered hook e (m, ok h) =
      let (hub, id) = register e (m.hubs h) in
      let w : World A = record m.world { cells = update m.world.cells e.completion pending } in
      hooked hook h e id (set_hub h hub (record m { world = w }))

  pub with_future : Request → ℕ → Result PyErr ℕ → Machine A → Machine A × Result PyErr Operation
  unfolding registered completion_hub
  with_future r event_loop (err error) m = (m, err error)
  with_future r event_loop (ok f) m =
      let w : World A = record m.world { futures = update m.world.futures f waiting } in
      registered r.callback_error (record { future = f; completion = r.cell })
        (completion_hub r.create_error event_loop (record m { world = w }))

  pub on_loop : Request → Result PyErr ℕ → Machine A → Machine A × Result PyErr Operation
  unfolding with_future
  on_loop r (err error) m = (m, err error)
  on_loop r (ok event_loop) m = with_future r event_loop r.future m

  -- Up to the two spawns; the task of the operation returned is running.
  unfoldable pub start_bridge : Request → Machine A → Machine A × Result PyErr Operation
  unfolding on_loop
  start_bridge r m = on_loop r r.locals m

  pub published : Bool → Operation → Option (Result PyErr A) → Machine A → Machine A
  published write_ok op none m = m
  published write_ok op (some r) m =
      set_hub op.hub (publish write_ok op.id (m.hubs op.hub)).0
        (record m { world = store op.entry.completion r m.world })

  -- The second task, once the task of the work has ended.
  unfoldable pub finish : Bool → Operation → Joined A → Machine A → Machine A
  unfolding published bridge_result
  finish write_ok op joined m = published write_ok op (bridge_result joined) m

  pub resolved : (A → Result PyErr ℕ) → ℕ → CallbackResult → Machine A → Machine A
  resolved convert h (hub, done, left, l) m =
      set_hub h hub (record m { world = complete_all convert done m.world })

  -- The wake callback of a hub whose receive has succeeded, and its idle callback, whose receive can
  -- be armed again.
  unfoldable pub deliver : (A → Result PyErr ℕ) → ℕ → Machine A → Machine A
  unfolding resolved
  deliver convert h m = resolved convert h (wake_callback received (m.hubs h)) m

  unfoldable pub idle : (A → Result PyErr ℕ) → ℕ → Machine A → Machine A
  unfolding resolved
  idle convert h m = resolved convert h (idle_callback true (m.hubs h)) m
