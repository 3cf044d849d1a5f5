-- ===== src/Running/Events.antt =====
-- src/running.rs, lines 129 to 196 and 685 to 829: the drive that pulls lifecycle events and starts
-- the finisher of the run once the child has exited. The world is a list of turns.
pub mod Order
pub mod Handover
use processkit_py.Common.{
  ℕ, zero, suc, Bool, true, false, Option, none, some, List, [], ◌∷◌, if◌then◌else◌,
}
use processkit_py.Running.{Handle, start_joint_finish}

-- What a wait for the next event meets: an event of the output, the terminal event of the run, the end
-- of the stream, or the probe's timer, with whether the child has exited by then. The terminal event
-- arrives when the run is reaped: as long as the process is in its slot nobody reaps it, and there is
-- no such event.
pub data Turn (E : Type 0) : Type 0 where
  arrives : E → Turn E
  terminal : E → Turn E
  ends : Turn E
  timer : Bool → Turn E

pub data ProbeVerdict : Type 0 where
  exited still_running no_process : ProbeVerdict

-- `EXIT_POLL_INTERVAL`, in milliseconds.
abbrev pub exit_poll_interval : ℕ
exit_poll_interval = 50

pub record Drive (P : Type 0) : Type 0 where
  pub handle : Handle P
  pub open handle use *
  pub reap_started : Bool
  pub probe_after : ℕ

module _ {P : Type 0} where
  verdict_of : Option P → Bool → ProbeVerdict
  verdict_of none b = no_process
  verdict_of (some p) true = exited
  verdict_of (some p) false = still_running

  -- `probe_exit_now`, where the crate's probe answers `has_exited`.
  unfoldable pub probe_exit_now : Bool → Option P → ProbeVerdict
  unfolding verdict_of
  probe_exit_now has_exited slot = verdict_of slot has_exited

  on_verdict : ProbeVerdict → Drive P → Drive P
  on_verdict exited d =
      let (h, begun) = start_joint_finish d.handle in record d { handle = h; reap_started = begun }
  on_verdict no_process d = record d { reap_started = true }
  on_verdict still_running d = record d { probe_after = exit_poll_interval }

  -- The timer's branch of the `select!`.
  unfoldable pub on_timer : Bool → Drive P → Drive P
  unfolding probe_exit_now on_verdict start_joint_finish
  on_timer has_exited d = on_verdict (probe_exit_now has_exited d.inner) d

  -- The stream's branch; a started reap bypasses the `select!` and leaves the cadence alone.
  abbrev pub on_output : Drive P → Drive P
  on_output d = if d.reap_started then d else record d { probe_after = 0 }

-- What a call has pulled: `none` while it still waits, `some none` at the end of the stream; then the
-- drive, and the turns not yet used.
abbrev pub Pulled : Type 0 → Type 0 → Type 0
Pulled P E = Option (Option E) × Drive P × List (Turn E)

onward : {L : Type 0} → Option (Option L) → List L → List L
onward (some (some l)) rest = l ∷ rest
onward r rest = []

module _ {P E : Type 0} where
  -- With a started reap the timer is never armed, and a turn of it does not count.
  unfoldable pub next_event : List (Turn E) → Drive P → Pulled P E
  unfolding on_timer
  next_event [] d = (none, d, [])
  next_event (arrives e ∷ turns) d = (some (some e), on_output d, turns)
  next_event (terminal e ∷ turns) d =
      let waits_on = next_event turns d in
      elim d.inner [ none ↦ (some (some e), on_output d, turns) | some p ↦ waits_on ]
  next_event (ends ∷ turns) d = (some none, on_output d, turns)
  next_event (timer b ∷ turns) d = next_event turns (if d.reap_started then d else on_timer b d)

  -- A loop of the consumer over `__anext__`, for `n` pulls or until the stream ends.
  unfoldable pub pull_all : ℕ → List (Turn E) → Drive P → List E
  unfolding onward
  pull_all zero turns d = []
  pull_all (suc n) turns d =
      let (r, d', rest) = next_event turns d in let later = pull_all n rest d' in onward r later

  -- `next_line`, with `OutputEvent::from_event` for `pick`, and the loop of `StderrLines.__anext__`,
  -- with its match for `pick`: events that `pick` refuses are skipped.
  unfoldable pub next_line :
      {L : Type 0}
      → (E → Option L)
      → ℕ
      → List (Turn E)
      → Drive P
      → Option (Option L) × Drive P × List (Turn E)
  next_line pick zero turns d = (none, d, turns)
  next_line pick (suc n) turns d =
      let (r, d', rest) = next_event turns d in
      let again = next_line pick n rest d' in
      elim r [
        | none ↦ (none, d', rest)
        | some none ↦ (some none, d', rest)
        | some (some e) ↦ elim (pick e) [ some l ↦ (some (some l), d', rest) | none ↦ again ]
      ]

-- The events of the turns, up to the end of the stream.
abbrev pub events : {E : Type 0} → List (Turn E) → List E
events [] = []
events (arrives e ∷ turns) = e ∷ events turns
events (terminal e ∷ turns) = e ∷ events turns
events (ends ∷ turns) = []
events (timer b ∷ turns) = events turns
