-- ===== src/Running/Verbs/Tests.antt =====
-- src/running.rs: consuming verbs on a handle, from inside and outside the runtime.
use processkit_py.Common.{ℕ, ◌≤◌, ◌≡◌, inl, inr, refl, false, none, some, List, [], ◌∷◌, ok, err}
use processkit_py.Errors.{PyErr, process_error}
use processkit_py.Runtime.{require_event_loop, reject_reentrant_runtime, guard_against_fork}
use processkit_py.Running.{
  Handle, not_started, IsValid, started, claim, take_claim, take_joint, take_process,
}
use processkit_py.Running.Events.Handover.{whereabouts}
use processkit_py.Running.Verbs.{
  Surface, sync, async, Caller, Verb, finish, output, guard, drive, consume, exit,
}
use processkit_py.Running.Verbs.Consume.{consume_all, consume-refused_keeps, consume_all-once}
use processkit_py.Running.Verbs.Exit.{ended, exit-tears_down}

abbrev child : ℕ
child = 7

abbrev live : Handle ℕ
live = record { inner = some child; finish = not_started }

live-IsValid : IsValid live
live-IsValid = record { emptied = inl refl }

abbrev main_thread : Caller
main_thread = record { pid = 41; owner = 41; inside = false; event_loop = false }

no_loop : (consume output async main_thread live).1 ≡ err process_error
unfolding consume guard require_event_loop
no_loop = refl

consume-refused_keeps_example : (consume output async main_thread live).0 ≡ live
consume-refused_keeps_example =
    consume-refused_keeps output async main_thread live process_error (inr refl) no_loop

abbrev calls : List (Verb × Surface × Caller)
calls =
    (output, async, main_thread) ∷ (finish, sync, main_thread) ∷ (output, sync, main_thread) ∷ []

consume_all-once_example :
    ((consume_all calls (started child)).1 ≤ 1)
    × ((consume_all calls (started child)).1 ≡ 1
        → whereabouts (consume_all calls (started child)).0 ≡ [])
consume_all-once_example = consume_all-once calls child

exit-tears_down_example :
    (guard sync main_thread ≡ ok tt
      → (ended (exit sync main_thread live).1 ≡ whereabouts live)
        × (whereabouts (exit sync main_thread live).0 ≡ []))
    × ((e : PyErr) → guard sync main_thread ≡ err e → exit sync main_thread live ≡ (live, err e))
exit-tears_down_example = exit-tears_down sync main_thread live live-IsValid (inr refl)

-- In a forked process a blocking verb takes the handle before the fork guard refuses it.
abbrev forked_child : Caller
forked_child = record { pid = 42; owner = 41; inside = false; event_loop = false }

abbrev spent : Handle ℕ
spent = record { inner = none; finish = not_started }

forked_call-spends : consume finish sync forked_child live ≡ (spent, err process_error)
unfolding consume guard reject_reentrant_runtime claim take_claim take_joint take_process drive
    guard_against_fork
forked_call-spends = refl
