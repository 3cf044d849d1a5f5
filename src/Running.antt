-- ===== src/Running.antt =====
-- src/running.rs: the handle of a running process and the streams that share it. `P` is the process
-- of the processkit crate; the finisher's task is the process that it finishes.
pub mod Claim
pub mod Events
pub mod Tail
pub mod Verbs
pub mod Idle
pub mod Iterators
pub mod Getters
pub mod JsonLines
pub mod Stdin
pub mod Openers
pub mod WaitFor
mod Tests
use processkit_py.Common.{◌≡◌, ◌⊎◌, Bool, true, false, Option, none, some, Result, err, ok_or}
use processkit_py.Errors.{PyErr, process_error}

pub data JointFinish (P : Type 0) : Type 0 where
  not_started : JointFinish P
  running : P → JointFinish P
  taken : JointFinish P

pub data Claimed (P : Type 0) : Type 0 where
  process : P → Claimed P
  joint : P → Claimed P

-- The two slots that the handle shares with its streams, each behind a lock of its own.
pub record Handle (P : Type 0) : Type 0 where
  pub inner : Option P
  pub finish : JointFinish P

module _ {P : Type 0} where
  -- `PyRunningProcess::started`
  unfoldable pub started : P → Handle P
  started p = record { inner = some p; finish = not_started }

  -- `take`, under the process lock.
  unfoldable pub take : Handle P → Handle P × Option P
  take h = (record h { inner = none }, h.inner)

  claimed_joint : JointFinish P → JointFinish P × Option (Claimed P)
  claimed_joint (running task) = (taken, some (joint task))
  claimed_joint f = (f, none)

  -- The first and the last section of `take_claim`, under the finish lock.
  unfoldable pub take_joint : Handle P → Handle P × Option (Claimed P)
  unfolding claimed_joint
  take_joint h = let (f, c) = claimed_joint h.finish in (record h { finish = f }, c)

  boxed : Option P → Option (Claimed P)
  boxed none = none
  boxed (some p) = some (process p)

  -- The section of `take_claim` under the process lock.
  unfoldable pub take_process : Handle P → Handle P × Option (Claimed P)
  unfolding take boxed
  take_process h = let (h', p) = take h in (h', boxed p)

  or_else :
      Handle P × Option (Claimed P)
      → (Handle P → Handle P × Option (Claimed P))
      → Handle P × Option (Claimed P)
  or_else (h, some c) f = (h, some c)
  or_else (h, none) f = f h

  -- With no other thread at work between the sections.
  unfoldable pub take_claim : Handle P → Handle P × Option (Claimed P)
  unfolding take_joint take_process or_else
  take_claim h = or_else (or_else (take_joint h) take_process) take_joint

  unfoldable pub claim : Handle P → Handle P × Result PyErr (Claimed P)
  unfolding take_claim
  claim h = let (h', c) = take_claim h in (h', ok_or process_error c)

  abbrev is_not_started : JointFinish P → Bool
  is_not_started not_started = true
  is_not_started f = false

  unfoldable pub take_running : Handle P → Handle P × Result PyErr P
  unfolding take
  take_running h = let (h', p) = take h in (h', ok_or process_error p)

  unfoldable pub take_running_uncaptured : Handle P → Handle P × Result PyErr P
  unfolding take_running
  take_running_uncaptured h = elim (is_not_started h.finish) [
    | true ↦ take_running h
    | false ↦ (h, err process_error)
  ]

  hand_to_task : Option P → Handle P → Handle P
  hand_to_task none h = h
  hand_to_task (some p) h = record h { finish = running p }

  -- `start_joint_finish`, with no other thread at work; it always answers `true`.
  unfoldable pub start_joint_finish : Handle P → Handle P × Bool
  unfolding take hand_to_task
  start_joint_finish h = elim (is_not_started h.finish) [
    | true ↦ (let (h', p) = take h in (hand_to_task p h', true))
    | false ↦ (h, true)
  ]

  -- The finisher has been given the process, or nobody has.
  pub record IsValid (h : Handle P) : Type 0 where
    pub emptied : (h.finish ≡ not_started) ⊎ (h.inner ≡ none)
