-- ===== src/Running/Claim.antt =====
-- src/running.rs, lines 806 to 829 and 1097 to 1126: a claim of the run that races with the events
-- stream's finisher and with other threads. An `Event` is one lock section. `start_joint_finish` is
-- two: it empties the process slot, and publishes the task later, all the while holding the finish
-- lock (`in_hand`), so that other sections under that lock wait.
pub mod Safety
use processkit_py.Common.{◌≡◌, Bool, true, false, Option, none, some, List, [], ◌∷◌, if◌then◌else◌}
use processkit_py.Running.{
  Handle, JointFinish, not_started, running, Claimed, started, take, take_joint, take_process,
}

-- Where the claiming thread stands in `take_claim`.
pub data Claimer (P : Type 0) : Type 0 where
  at_joint : Claimer P
  at_process : Claimer P
  at_recheck : Claimer P
  returned : Option (Claimed P) → Claimer P

-- `others` is what the other threads' claims have returned.
pub record Race (P : Type 0) : Type 0 where
  pub handle : Handle P
  pub open handle use *
  pub in_hand : Option P
  pub claimer : Claimer P
  pub others : List (Claimed P)

pub data Event : Type 0 where
  begins publishes claims other_joint other_process : Event

module _ {P : Type 0} where
  abbrev unlocked : Race P → Bool
  unlocked s = elim s.in_hand [ none ↦ true | some p ↦ false ]

  -- The lock is taken, the slot is seen to be `NotStarted`, and the process slot is emptied; with no
  -- process there the finisher returns at once.
  begin : JointFinish P → Race P → Race P
  begin not_started s = let (h, p) = take s.handle in record s { handle = h; in_hand = p }
  begin f s = s

  publish : Option P → Race P → Option (Race P)
  publish none s = none
  publish (some p) s =
      some (record s { handle = record s.handle { finish = running p }; in_hand = none })

  found : Race P → Handle P × Option (Claimed P) → Claimer P → Race P
  found s (h, some c) next = record s { handle = h; claimer = returned (some c) }
  found s (h, none) next = record s { handle = h; claimer = next }

  claim_step : Claimer P → Race P → Option (Race P)
  unfolding found
  claim_step at_joint s =
      if unlocked s then some (found s (take_joint s.handle) at_process) else none
  claim_step at_process s = some (found s (take_process s.handle) at_recheck)
  claim_step at_recheck s =
      if unlocked s then some (found s (take_joint s.handle) (returned none)) else none
  claim_step (returned c) s = none

  other : Race P → Handle P × Option (Claimed P) → Race P
  other s (h, some c) = record s { handle = h; others = c ∷ s.others }
  other s (h, none) = record s { handle = h }

  unfoldable pub fire : Event → Race P → Option (Race P)
  unfolding begin publish claim_step other take take_joint take_process
  fire begins s = if unlocked s then some (begin s.finish s) else none
  fire publishes s = publish s.in_hand s
  fire claims s = claim_step s.claimer s
  fire other_joint s = if unlocked s then some (other s (take_joint s.handle)) else none
  fire other_process s = some (other s (take_process s.handle))

  unfoldable pub boot : P → Race P
  unfolding started
  boot p = record { handle = started p; in_hand = none; claimer = at_joint; others = [] }

  pub data Reach (p : P) : Race P → Type 0 where
    start : Reach p (boot p)
    next : {s t : Race P} (ev : Event) → Reach p s → fire ev s ≡ some t → Reach p t
