-- ===== src/Hub/System/Idle.antt =====
-- src/runtime.rs, lines 355 to 384 and 632 to 689: the retirement of a hub that has run dry.
use processkit_py.Common.{◌≡◌, ◌≢◌, ◌⊎◌, true, false, some, [], arith, insert}
use processkit_py.Hub.{
  HubEntry, register, cancel, wake, publish_enqueue, idle_flag, take_ready, close, has_entries,
}
use processkit_py.Hub.System.{
  armed, Sys, Event, registers, publishes, writes, receives, wakes, idles, cancels, cancel_wakes,
  refuses, dropped, fire, boot, Reach, Reach_induction,
}
use processkit_py.Hub.System.Tokens.{Reach-Inv}

-- As long as no `add_done_callback` has failed, a receive that waits on the socket has an operation to
-- wait for, or a wake on its way.
abbrev HasReason : Sys → Type 0
HasReason s =
    s.abandoned ≡ false
    → s.closed ≡ false
    → s.cancelling ≡ false
    → s.loop ≡ armed
    → (s.entries ≢ []) ⊎ (s.wake_outstanding ≡ true)

boot-HasReason : (e : HubEntry) → HasReason (boot e)
unfolding boot register insert
boot-HasReason e = ground arith

fire-HasReason : (ev : Event) (s t : Sys) → HasReason s → fire ev s ≡ some t → HasReason t
unfolding fire register cancel wake publish_enqueue idle_flag take_ready close has_entries insert
fire-HasReason (registers e) s t i h = ground arith
fire-HasReason (publishes id) s t i h = ground arith
fire-HasReason (writes b) s t i h = ground arith
fire-HasReason receives s t i h = ground arith
fire-HasReason (wakes outcome) s t i h = ground arith
fire-HasReason (idles b) s t i h = ground arith
fire-HasReason (cancels id) s t i h = ground arith
fire-HasReason cancel_wakes s t i h = ground arith
fire-HasReason (refuses id) s t i h = ground arith
fire-HasReason dropped s t i h = ground arith

-- In every reachable state, if no `add_done_callback` has failed, the hub is open with its writer,
-- no callback is running, the receive waits on the socket and no wake byte is in the socket or about
-- to be written, then an operation is still registered: a hub whose last operation was completed or
-- cancelled does not stay armed.
pub armed_hub_has_entries :
    {e : HubEntry} {s : Sys}
    → Reach e s
    → s.abandoned ≡ false
    → s.closed ≡ false
    → s.writer ≡ true
    → s.cancelling ≡ false
    → s.loop ≡ armed
    → s.writing ≡ 0
    → s.pipe ≡ 0
    → s.entries ≢ []
armed_hub_has_entries {e} r cared open_hub held still waits unwritten empty =
    let reason = Reach_induction HasReason e (boot-HasReason e) fire-HasReason r in
    ground (arith, Reach-Inv r, reason cared open_hub still waits)
