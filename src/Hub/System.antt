-- ===== src/Hub/System.antt =====
-- src/runtime.rs, lines 445 to 689 and 794 to 804: the callbacks that drive a hub, a `start_bridge`
-- that gives up, and the interleavings of the loop's thread with the runtime's workers. An `Event`
-- is one atomic step: a lock section or a loop callback. A worker that was told to wake writes its
-- byte in a later step of its own.
pub mod Tokens
pub mod Idle
pub mod Schedule
pub mod Progress
pub mod Once
pub mod Calls
mod Tests
use processkit_py.Common.{
  ℕ, ◌+◌, ◌-◌, ◌≡◌, Bool, true, false, not, ◌&&◌, ◌||◌, Option, none, some, List, [], ◌∷◌, ◌++◌,
  ltb, if◌then◌else◌,
}
use processkit_py.Hub.{
  HubEntry, CompletionHub, new_hub, register, cancel, wake, publish_enqueue, idle_flag, take_ready,
  close, has_entries,
}

-- Where the hub's one receive stands: waiting on the socket, done with its callback due, done with
-- the idle callback due, or never to be armed again.
pub data Loop : Type 0 where
  armed woken idle_queued retired : Loop

-- `writing` counts the threads that have been told to wake and have not yet written; `pipe` is the
-- bytes in the socket. `cancelling` is set while the loop's thread is inside `PyCancelCallback`,
-- between its two locks. `completed` and `cancelled` are the entries whose Future was resolved by
-- `complete_entry` or cancelled by a callback. `abandoned` records that
-- some `add_done_callback` has failed, after which the hub forgets the operation and is not woken.
pub record Sys : Type 0 where
  pub hub : CompletionHub
  pub open hub use *
  pub pipe : ℕ
  pub writing : ℕ
  pub loop : Loop
  pub cancelling : Bool
  pub completed : List HubEntry
  pub cancelled : List HubEntry
  pub abandoned : Bool

-- How the receive task and the scheduling of the idle callback end, in `PyHubWakeCallback`.
pub data WakeOutcome : Type 0 where
  received task_cancelled receive_failed call_soon_failed : WakeOutcome

-- The hub, the entries completed, the entries cancelled, and where the receive then stands.
abbrev pub CallbackResult : Type 0
CallbackResult = CompletionHub × List HubEntry × List HubEntry × Loop

unfoldable pub wake_callback : WakeOutcome → CompletionHub → CallbackResult
wake_callback task_cancelled h = let (h', left) = close h in (h', [], left, retired)
wake_callback receive_failed h =
    let (h', done) = take_ready h in let (h'', left) = close h' in (h'', done, left, retired)
wake_callback call_soon_failed h =
    let (h', done) = take_ready h in let (h'', left) = close h' in (h'', done, left, retired)
wake_callback received h = let (h', done) = take_ready h in (h', done, [], idle_queued)

-- `arm_ok` is whether `arm_hub_receive` succeeds.
unfoldable pub idle_callback : Bool → CompletionHub → CallbackResult
idle_callback arm_ok h =
    if has_entries h
    then (if arm_ok
        then (h, [], [], armed)
        else (let (h', left) = close h in (h', [], left, retired)))
    else (let (h', left) = close h in (h', [], left, retired))

pub data Event : Type 0 where
  registers : HubEntry → Event
  publishes : ℕ → Event
  writes : Bool → Event
  receives : Event
  wakes : WakeOutcome → Event
  idles : Bool → Event
  cancels : ℕ → Event
  cancel_wakes : Event
  refuses : ℕ → Event
  dropped : Event

abbrev pub bit : Bool → ℕ
bit true = 1
bit false = 0

abbrev pub is_armed : Loop → Bool
is_armed armed = true
is_armed _ = false

abbrev pub is_woken : Loop → Bool
is_woken woken = true
is_woken _ = false

abbrev pub is_idle_queued : Loop → Bool
is_idle_queued idle_queued = true
is_idle_queued _ = false

-- A callback whose receive is still pending runs only when that receive fails or is cancelled.
abbrev pub callback_due : WakeOutcome → Loop → Bool
callback_due received l = is_woken l
callback_due call_soon_failed l = is_woken l
callback_due task_cancelled l = is_armed l
callback_due receive_failed l = is_armed l

abbrev pub after_callback : Sys → CallbackResult → Sys
after_callback s (h, done, left, l) = record s {
  hub = h;
  loop = l;
  completed = s.completed ++ done;
  cancelled = s.cancelled ++ left;
}

-- `none` is an event that cannot happen in that state. The loop's thread runs one callback at a
-- time; a receive returns a byte, or end of file once the writer is dropped.
unfoldable pub fire : Event → Sys → Option Sys
unfolding wake_callback idle_callback
fire (registers e) s = if s.cancelling then none else some (record s { hub = (register e s.hub).0 })
fire (publishes id) s =
    let (h, should_wake) = publish_enqueue id s.hub in
    some (record s { hub = h; writing = s.writing + bit should_wake })
fire (writes write_ok) s =
    let (h, sent) = wake write_ok s.hub in
    if ltb 0 s.writing
    then some (record s { hub = h; writing = s.writing - 1; pipe = s.pipe + sent })
    else none
fire receives s =
    if not s.cancelling && (is_armed s.loop && (ltb 0 s.pipe || not s.writer))
    then some (record s { pipe = s.pipe - 1; loop = woken })
    else none
fire (wakes outcome) s =
    if not s.cancelling && callback_due outcome s.loop
    then some (after_callback s (wake_callback outcome s.hub))
    else none
fire (idles arm_ok) s =
    if not s.cancelling && is_idle_queued s.loop
    then some (after_callback s (idle_callback arm_ok s.hub))
    else none
fire (cancels id) s =
    if s.cancelling then none else some (record s { hub = cancel id s.hub; cancelling = true })
fire cancel_wakes s =
    let (h, should_wake) = idle_flag s.hub in
    if s.cancelling
    then some (record s { hub = h; writing = s.writing + bit should_wake; cancelling = false })
    else none
fire (refuses id) s =
    if s.cancelling then none else some (record s { hub = cancel id s.hub; abandoned = true })
fire dropped s =
    if s.cancelling then none else some (record s { hub = (close s.hub).0; loop = retired })

-- `create_completion_hub`, and the registration of the operation that it was created for.
unfoldable pub boot : HubEntry → Sys
boot e = record {
  hub = (register e new_hub).0;
  pipe = 0;
  writing = 0;
  loop = armed;
  cancelling = false;
  completed = [];
  cancelled = [];
  abandoned = false;
}

-- Any interleaving of events, from the creation of the hub.
pub data Reach (e : HubEntry) : Sys → Type 0 where
  start : Reach e (boot e)
  next : {s t : Sys} (ev : Event) → Reach e s → fire ev s ≡ some t → Reach e t

-- A given interleaving.
unfoldable pub run : List Event → Sys → Option Sys
run [] s = some s
run (ev ∷ evs) s = elim (fire ev s) [ none ↦ none | some t ↦ run evs t ]

-- Every event keeps `P`, so `P` holds wherever the system can get.
pub Reach_induction {ℓ} :
    (P : Sys → Type ℓ) (e : HubEntry)
    → P (boot e)
    → ((ev : Event) (s t : Sys) → P s → fire ev s ≡ some t → P t)
    → {s : Sys} → Reach e s
    → P s
Reach_induction P e base step start = base
Reach_induction P e base step (next {s} {t} ev r h) =
    step ev s t (Reach_induction P e base step r) h
