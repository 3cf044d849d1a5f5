-- ===== src/Hub/System/Tokens.antt =====
-- src/runtime.rs, lines 325 to 393: the wake token, from `publish` through the socket to `take_ready`.
use processkit_py.Common.{◌+◌, ◌≤◌, ◌<◌, ◌≡◌, ◌≢◌, ◌⊎◌, true, false, some, [], arith}
use processkit_py.Hub.{
  HubEntry, register, cancel, wake, publish_enqueue, idle_flag, take_ready, close, has_entries,
}
use processkit_py.Hub.System.{
  woken, retired, Sys, Event, registers, publishes, writes, receives, wakes, idles, cancels,
  cancel_wakes, refuses, dropped, bit, is_woken, fire, boot, Reach, Reach_induction,
}

pub record Inv (s : Sys) : Type 0 where
  pub token :
      s.closed ≡ false
      → s.writer ≡ true
      → s.writing + s.pipe + bit (is_woken s.loop) ≡ bit s.wake_outstanding
  pub flagged : s.ready ≢ [] → s.wake_outstanding ≡ true
  pub retires : s.closed ≡ false → s.loop ≢ retired

boot-Inv : (e : HubEntry) → Inv (boot e)
unfolding boot register
boot-Inv e = ground arith

fire-Inv : (ev : Event) (s t : Sys) → Inv s → fire ev s ≡ some t → Inv t
unfolding fire register cancel wake publish_enqueue idle_flag take_ready close has_entries
fire-Inv (registers e) s t i h = ground arith
fire-Inv (publishes id) s t i h = ground arith
fire-Inv (writes b) s t i h = ground arith
fire-Inv receives s t i h = ground arith
fire-Inv (wakes outcome) s t i h = ground arith
fire-Inv (idles b) s t i h = ground arith
fire-Inv (cancels id) s t i h = ground arith
fire-Inv cancel_wakes s t i h = ground arith
fire-Inv (refuses id) s t i h = ground arith
fire-Inv dropped s t i h = ground arith

pub Reach-Inv : {e : HubEntry} {s : Sys} → Reach e s → Inv s
Reach-Inv {e} r = Reach_induction Inv e (boot-Inv e) fire-Inv r

-- In every state that any interleaving of workers and loop callbacks can reach, if the hub is open
-- and a published identifier waits in `ready`, then a wake-up is on its way: a thread is about to
-- write the wake byte, or the byte is in the socket, or the receive has completed and its callback
-- is due, or the writer was dropped, so that the receive sees end of file.
pub no_lost_wakeup :
    {e : HubEntry} {s : Sys}
    → Reach e s
    → s.closed ≡ false
    → s.ready ≢ []
    → (0 < s.writing) ⊎ (0 < s.pipe) ⊎ (s.loop ≡ woken) ⊎ (s.writer ≡ false)
no_lost_wakeup r open_hub waiting = ground (arith, Reach-Inv r, (Reach-Inv r).flagged waiting)

-- In every reachable state of an open hub that holds its writer, the wake bytes in the socket and
-- those about to be written are at most one together, and none if no wake is outstanding.
pub wake_bytes_bounded :
    {e : HubEntry} {s : Sys}
    → Reach e s
    → s.closed ≡ false
    → s.writer ≡ true
    → (s.writing + s.pipe ≤ 1) × (s.wake_outstanding ≡ false → s.writing + s.pipe ≡ 0)
wake_bytes_bounded r open_hub held = ground (arith, Reach-Inv r)
