-- ===== src/Running/Events/Handover.antt =====
-- src/running.rs: what the drive does to the handle that it shares.
use processkit_py.Common.{
  inl, inr, Bool-cases, ◌≡◌, refl, Bool, true, false, Option, none, some, List, [], ◌∷◌, arith, ok,
  err,
}
use processkit_py.Errors.{process_error}
use processkit_py.Running.{
  Handle, JointFinish, not_started, running, joint, IsValid, claim, take_running_uncaptured,
}
use processkit_py.Running.Events.{Turn, arrives, terminal, ends, timer, Drive, on_timer, next_event}

-- The processes in the two slots of the handle.
abbrev pub in_slots : {P : Type 0} → Option P → JointFinish P → List P
in_slots none (running p) = p ∷ []
in_slots none f = []
in_slots (some q) (running p) = q ∷ p ∷ []
in_slots (some q) f = q ∷ []

abbrev pub whereabouts : {P : Type 0} → Handle P → List P
whereabouts h = in_slots h.inner h.finish

abbrev pub Reaped : {P : Type 0} → Drive P → Type 0
Reaped d = d.reap_started ≡ true → d.inner ≡ none

-- The child has not exited at any probe of the turns.
abbrev pub Alive : {E : Type 0} → List (Turn E) → Type 0
Alive [] = Unit
Alive (timer b ∷ turns) = (b ≡ false) × Alive turns
Alive (turn ∷ turns) = Alive turns

module _ {P : Type 0} where
  pub on_timer-whereabouts :
      (b : Bool) (d : Drive P)
      → IsValid d.handle
      → d.reap_started ≡ false
      → (whereabouts (on_timer b d).handle ≡ whereabouts d.handle)
        × IsValid (on_timer b d).handle
        × Reaped (on_timer b d)
  unfolding on_timer
  on_timer-whereabouts b d v r = ground arith

module _ {P E : Type 0} where
  -- However long the drive waits for an event, and whatever its probes see, the run stays in the
  -- handle: the same process is in the process slot or with the finisher, in no second place; and
  -- once the reap has started the process slot is empty.
  pub next_event-whereabouts :
      (turns : List (Turn E)) (d : Drive P)
      → IsValid d.handle
      → Reaped d
      → (whereabouts (next_event turns d).1.handle ≡ whereabouts d.handle)
        × IsValid (next_event turns d).1.handle
        × Reaped (next_event turns d).1
  unfolding next_event
  next_event-whereabouts [] d v r = (refl, v, r)
  next_event-whereabouts (arrives e ∷ turns) d v r = ground arith
  next_event-whereabouts (terminal e ∷ turns) d v r =
      ground (arith, next_event-whereabouts turns d v r)
  next_event-whereabouts (ends ∷ turns) d v r = ground arith
  next_event-whereabouts (timer b ∷ turns) d v r = elim (Bool-cases d.reap_started) [
    | inl begun ↦ ground (arith, next_event-whereabouts turns d v r)
    | inr waits ↦
        let (same, v', r') = on_timer-whereabouts b d v waits in
        let (same', valid, reaped) = next_event-whereabouts turns (on_timer b d) v' r' in
        ground (arith, same, same', valid, reaped)
  ]

  -- As long as no probe sees the child exited, a drive over a live process leaves the handle exactly
  -- as it was, so that every other method of the handle keeps working.
  pub next_event-Alive :
      (turns : List (Turn E)) (d : Drive P) (p : P)
      → Alive turns
      → d.inner ≡ some p
      → d.reap_started ≡ false
      → ((next_event turns d).1.handle ≡ d.handle) × ((next_event turns d).1.reap_started ≡ false)
  unfolding next_event on_timer
  next_event-Alive [] d p a i r = (refl, r)
  next_event-Alive (arrives e ∷ turns) d p a i r = ground arith
  next_event-Alive (terminal e ∷ turns) d p a i r = ground (arith, next_event-Alive turns d p a i r)
  next_event-Alive (ends ∷ turns) d p a i r = ground arith
  next_event-Alive (timer b ∷ turns) d p a i r =
      ground (arith, next_event-Alive turns (on_timer b d) p a.1)

module _ {P : Type 0} where
  -- When a probe sees the child exited, the run goes to the finisher; a claim then returns that
  -- finisher, once, and a second claim fails; the verbs that need captured output are refused and
  -- leave the finisher to be claimed.
  pub exited-claim :
      (d : Drive P) (p : P)
      → d.inner ≡ some p
      → d.finish ≡ not_started
      → let h = (on_timer true d).handle in
        ((claim h).1 ≡ ok (joint p))
        × ((claim (claim h).0).1 ≡ err process_error)
        × (take_running_uncaptured h ≡ (h, err process_error))
  unfolding on_timer claim take_running_uncaptured
  exited-claim d p i f = ground arith
