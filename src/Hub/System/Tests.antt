-- ===== src/Hub/System/Tests.antt =====
-- src/runtime.rs: the hub on a short run. One operation is registered and its worker publishes it.
use processkit_py.Common.{
  ◌+◌, ◌≤◌, ◌<◌, ◌≡◌, ◌≢◌, ◌⊎◌, refl, true, false, none, some, List, [], ◌∷◌, length, lookup,
  contains, insert, remove, contains_key,
}
use processkit_py.Hub.{HubEntry, register, cancel, publish_enqueue, wake, take_ready, collect_ready}
use processkit_py.Hub.Delivery.{count_future, Has}
use processkit_py.Hub.System.{
  armed, woken, idle_queued, Sys, Event, registers, publishes, writes, refuses, receives, wakes,
  received, fire, boot, run, Reach, start, next,
}
use processkit_py.Hub.System.Tokens.{no_lost_wakeup}
use processkit_py.Hub.System.Idle.{armed_hub_has_entries}
use processkit_py.Hub.System.Progress.{settle_delivers}
use processkit_py.Hub.System.Schedule.{settle}
use processkit_py.Hub.System.Once.{registrations, futures_settled_once}

abbrev op : HubEntry
op = record { future = 7; completion = 70 }

abbrev published : Sys
published = record {
  hub = record {
    next_id = 2;
    state = record {
      entries = (1, op) ∷ [];
      ready = 1 ∷ [];
      wake_outstanding = true;
      closed = false;
    };
    writer = true;
  };
  pipe = 0;
  writing = 1;
  loop = armed;
  cancelling = false;
  completed = [];
  cancelled = [];
  abandoned = false;
}

published-Reach : Reach op published
unfolding fire boot register publish_enqueue insert remove contains_key lookup
published-Reach = next (publishes 1) start refl

waits : published.ready ≢ []
waits e = cc

is_ready : contains 1 published.ready ≡ true
unfolding contains
is_ready = refl

is_registered : lookup 1 published.entries ≡ some op
unfolding lookup
is_registered = refl

no_lost_wakeup_example :
    (0 < published.writing)
    ⊎ (0 < published.pipe)
    ⊎ (published.loop ≡ woken)
    ⊎ (published.writer ≡ false)
no_lost_wakeup_example = no_lost_wakeup published-Reach refl waits

boot-Reach : Reach op (boot op)
boot-Reach = start

-- After the only operation's `add_done_callback` has failed, the hub is as `armed_hub_has_entries`
-- excludes, but it is marked.
abbrev forgotten : Sys
forgotten = record (boot op) { hub = cancel 1 (boot op).hub; abandoned = true }

forgotten-Reach : Reach op forgotten
unfolding fire boot
forgotten-Reach = next (refuses 1) start refl

nothing_left :
    (forgotten.entries ≡ []) × (forgotten.loop ≡ armed) × (forgotten.wake_outstanding ≡ false)
unfolding boot register cancel insert remove
nothing_left = (refl, refl, refl)

armed_hub_has_entries_example : (boot op).entries ≢ []
unfolding boot register
armed_hub_has_entries_example = armed_hub_has_entries boot-Reach refl refl refl refl refl refl refl

settle_delivers_example :
    (length (settle published) ≤ 5)
    × (t : Sys) × (run (settle published) published ≡ some t)
    × (t.ready ≡ [])
    × (lookup 1 t.entries ≡ none)
    × Has op t.completed
settle_delivers_example = settle_delivers 1 op published-Reach refl is_ready is_registered

abbrev handover : List Event
handover = publishes 1 ∷ writes true ∷ receives ∷ wakes received ∷ []

abbrev delivered : Sys
delivered = record {
  hub = record {
    next_id = 2;
    state = record { entries = []; ready = []; wake_outstanding = false; closed = false };
    writer = true;
  };
  pipe = 0;
  writing = 0;
  loop = idle_queued;
  cancelling = false;
  completed = op ∷ [];
  cancelled = [];
  abandoned = false;
}

handover-delivers : run handover (boot op) ≡ some delivered
unfolding run fire boot register publish_enqueue wake take_ready collect_ready insert remove
    contains_key lookup
handover-delivers = refl

futures_settled_once_example :
    count_future 7 delivered.completed + count_future 7 delivered.cancelled
    ≤ registrations 7 (registers op ∷ handover)
futures_settled_once_example = futures_settled_once 7 op handover delivered handover-delivers
