-- ===== src/Hub/System/Schedule.antt =====
-- src/runtime.rs: a schedule for the delivery of what is ready, from the state of the loop.
use mathlib.Core.List.{append-nil}
use processkit_py.Common.{
  ◌+◌, ◌-◌, ◌≡◌, ◌≢◌, inl, inr, refl, Bool, true, false, not, ◌||◌, some, List, [], ◌∷◌, ◌++◌,
  arith, ltb, Bool-cases,
}
use processkit_py.Hub.{wake, idle_flag, take_ready, has_entries}
use processkit_py.Hub.System.{
  Loop, armed, woken, idle_queued, retired, Sys, Event, writes, receives, wakes, idles,
  cancel_wakes, received, fire, run,
}
use processkit_py.Hub.System.Tokens.{Inv}

-- The loop takes what is in the socket, once a byte or the end of file is there.
abbrev pub pump : Loop → Bool → List Event
pump armed true = receives ∷ wakes received ∷ []
pump armed false = writes true ∷ receives ∷ wakes received ∷ []
pump woken b = wakes received ∷ []
pump idle_queued true = idles true ∷ receives ∷ wakes received ∷ []
pump idle_queued false = idles true ∷ writes true ∷ receives ∷ wakes received ∷ []
pump retired b = []

-- A cancellation callback that is under way ends first.
abbrev pub after_cancel : Bool → List Event → List Event
after_cancel true evs = cancel_wakes ∷ evs
after_cancel false evs = evs

abbrev pub settle : Sys → List Event
settle s = after_cancel s.cancelling (pump s.loop (ltb 0 s.pipe || not s.writer))

-- The run of `evs` ends with the ready entries completed and the hub as `take_ready` leaves it.
abbrev pub HandsOver : List Event → Sys → Type 0
HandsOver evs s =
    (t : Sys) × (run evs s ≡ some t)
    × (t.hub ≡ (take_ready s.hub).0)
    × (t.completed ≡ s.completed ++ (take_ready s.hub).1)

woken-HandsOver :
    (s : Sys) → s.cancelling ≡ false → s.loop ≡ woken → HandsOver (wakes received ∷ []) s
unfolding run fire
woken-HandsOver s still w = (
  record s {
    hub = (take_ready s.hub).0;
    loop = idle_queued;
    completed = s.completed ++ (take_ready s.hub).1;
    cancelled = s.cancelled ++ [];
  },
  ground arith,
  refl,
  refl,
)

armed-HandsOver :
    (s : Sys)
    → s.cancelling ≡ false
    → s.loop ≡ armed
    → (ltb 0 s.pipe || not s.writer) ≡ true
    → HandsOver (receives ∷ wakes received ∷ []) s
unfolding run fire
armed-HandsOver s still w byte = (
  record s {
    hub = (take_ready s.hub).0;
    loop = idle_queued;
    pipe = s.pipe - 1;
    completed = s.completed ++ (take_ready s.hub).1;
    cancelled = s.cancelled ++ [];
  },
  ground arith,
  refl,
  refl,
)

written-HandsOver :
    (s : Sys)
    → s.cancelling ≡ false
    → s.loop ≡ armed
    → s.writer ≡ true
    → 0 ≢ s.writing
    → HandsOver (writes true ∷ receives ∷ wakes received ∷ []) s
unfolding run fire wake
written-HandsOver s still w held due = (
  record s {
    hub = (take_ready s.hub).0;
    loop = idle_queued;
    writing = s.writing - 1;
    pipe = s.pipe + 1 - 1;
    completed = s.completed ++ (take_ready s.hub).1;
    cancelled = s.cancelled ++ [];
  },
  ground arith,
  refl,
  refl,
)

HandsOver-cons :
    (ev : Event) (evs : List Event) (s s' : Sys)
    → fire ev s ≡ some s'
    → s'.hub ≡ s.hub
    → s'.completed ≡ s.completed
    → HandsOver evs s'
    → HandsOver (ev ∷ evs) s
unfolding run
HandsOver-cons ev evs s s' f same_hub same_log (t, r, hub, log) =
    (t, ground (arith, f, r), rw (← same_hub) hub, rw (← same_hub, ← same_log) log)

armed_pump-HandsOver :
    (s : Sys)
    → Inv s
    → s.closed ≡ false
    → s.ready ≢ []
    → s.cancelling ≡ false
    → s.loop ≡ armed
    → HandsOver (pump armed (ltb 0 s.pipe || not s.writer)) s
armed_pump-HandsOver s i open_hub waiting still w =
    elim (Bool-cases (ltb 0 s.pipe || not s.writer)) [
      | inl byte ↦ rw byte (armed-HandsOver s still w byte)
      | inr nothing ↦
          rw nothing
            (written-HandsOver s still w (ground arith) (ground (arith, i.flagged waiting)))
    ]

idle_pump : (b : Bool) → pump idle_queued b ≡ idles true ∷ pump armed b
idle_pump true = refl
idle_pump false = refl

idle_pump-HandsOver :
    (s : Sys)
    → Inv s
    → s.closed ≡ false
    → s.ready ≢ []
    → s.entries ≢ []
    → s.cancelling ≡ false
    → s.loop ≡ idle_queued
    → HandsOver (pump idle_queued (ltb 0 s.pipe || not s.writer)) s
unfolding fire has_entries
idle_pump-HandsOver s i open_hub waiting busy still w =
    let s' : Sys = record s {
      loop = armed;
      completed = s.completed ++ [];
      cancelled = s.cancelled ++ [];
    } in
    let i' : Inv s' = record {
      token = ground (arith, i);
      flagged = i.flagged;
      retires = ground arith;
    } in
    rw (idle_pump (ltb 0 s.pipe || not s.writer)) (
      HandsOver-cons (idles true) (pump armed (ltb 0 s.pipe || not s.writer)) s s' (ground arith)
        refl (append-nil s.completed) (armed_pump-HandsOver s' i' open_hub waiting still refl))

pump-HandsOver :
    (l : Loop) (s : Sys)
    → Inv s
    → s.closed ≡ false
    → s.ready ≢ []
    → s.entries ≢ []
    → s.cancelling ≡ false
    → s.loop ≡ l
    → HandsOver (pump l (ltb 0 s.pipe || not s.writer)) s
pump-HandsOver armed s i open_hub waiting busy still w =
    armed_pump-HandsOver s i open_hub waiting still w
pump-HandsOver woken s i open_hub waiting busy still w = woken-HandsOver s still w
pump-HandsOver idle_queued s i open_hub waiting busy still w =
    idle_pump-HandsOver s i open_hub waiting busy still w
pump-HandsOver retired s i open_hub waiting busy still w = absurd (i.retires open_hub w)

pub after_cancel-HandsOver :
    (b : Bool) (s : Sys)
    → Inv s
    → s.closed ≡ false
    → s.ready ≢ []
    → s.entries ≢ []
    → s.cancelling ≡ b
    → HandsOver (after_cancel b (pump s.loop (ltb 0 s.pipe || not s.writer))) s
unfolding fire idle_flag
after_cancel-HandsOver false s i open_hub waiting busy still =
    pump-HandsOver s.loop s i open_hub waiting busy still refl
after_cancel-HandsOver true s i open_hub waiting busy inside =
    let s' : Sys = record s { writing = s.writing + 0; cancelling = false } in
    let i' : Inv s' = record {
      token = ground (arith, i);
      flagged = i.flagged;
      retires = i.retires;
    } in
    HandsOver-cons cancel_wakes (pump s.loop (ltb 0 s.pipe || not s.writer)) s s'
      (ground (arith, i.flagged waiting)) refl refl
      (pump-HandsOver s.loop s' i' open_hub waiting busy refl refl)
