-- ===== src/Hub/System/Calls.antt =====
-- src/runtime.rs, lines 336 to 384: the hub's methods and the events of their sections.
use processkit_py.Common.{ℕ, ◌+◌, ◌≡◌, Bool, true, false, some, [], ◌∷◌, arith, refl}
use processkit_py.Hub.{publish_enqueue, publish, idle_flag, wake_if_idle, wake}
use processkit_py.Hub.System.{Sys, publishes, writes, cancel_wakes, fire, run}

-- `publish` that finds no wake outstanding, as the events of its two sections.
publish-run :
    (write_ok : Bool) (id : ℕ) (s : Sys)
    → (publish_enqueue id s.hub).1 ≡ true
    → (t : Sys) × (run (publishes id ∷ writes write_ok ∷ []) s ≡ some t)
      × (t.hub ≡ (publish write_ok id s.hub).0)
      × (t.pipe ≡ s.pipe + (publish write_ok id s.hub).1)
unfolding run fire publish wake
publish-run write_ok id s wakes = (
  record s {
    hub = (publish write_ok id s.hub).0;
    writing = s.writing;
    pipe = s.pipe + (publish write_ok id s.hub).1;
  },
  ground (arith, wakes),
  refl,
  refl,
)

-- `wake_if_idle` of an idle hub, at the end of the cancellation callback.
wake_if_idle-run :
    (write_ok : Bool) (s : Sys)
    → s.cancelling ≡ true
    → (idle_flag s.hub).1 ≡ true
    → (t : Sys) × (run (cancel_wakes ∷ writes write_ok ∷ []) s ≡ some t)
      × (t.hub ≡ (wake_if_idle write_ok s.hub).0)
      × (t.pipe ≡ s.pipe + (wake_if_idle write_ok s.hub).1)
unfolding run fire wake_if_idle wake
wake_if_idle-run write_ok s inside wakes = (
  record s {
    hub = (wake_if_idle write_ok s.hub).0;
    writing = s.writing;
    pipe = s.pipe + (wake_if_idle write_ok s.hub).1;
    cancelling = false;
  },
  ground (arith, inside, wakes),
  refl,
  refl,
)
