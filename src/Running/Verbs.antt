-- ===== src/Running/Verbs.antt =====
-- src/running.rs, lines 1200 to 1248, 1318 to 1381, 1749 to 1925 and 1954 to 1967: the verbs that
-- consume the handle, the exits of its context managers, and its drop. A verb claims the run and
-- gives the driver a plan; what the crate then does with the process is not under src/.
pub mod Consume
pub mod Exit
mod Tests
use processkit_py.Common.{ℕ, Bool, Option, none, some, List, [], ◌∷◌, Result, ok, err}
use processkit_py.Errors.{PyErr}
use processkit_py.Runtime.{guard_against_fork, reject_reentrant_runtime, require_event_loop}
use processkit_py.Running.{
  Handle, JointFinish, running, Claimed, process, joint, take, take_claim, claim,
  take_running_uncaptured,
}

-- A verb blocks, or returns an awaitable.
pub data Surface : Type 0 where
  sync async : Surface

-- Where the call comes from: its process and the runtime's owner, whether its thread is inside the
-- runtime, and whether an event loop runs on it.
pub record Caller : Type 0 where
  pub pid : ℕ
  pub owner : ℕ
  pub inside : Bool
  pub event_loop : Bool

-- A duration is what `nonnegative_duration` or `positive_duration` makes of the argument.
pub data Verb : Type 0 where
  outcome finish output output_bytes : Verb
  profile shutdown : Result PyErr ℕ → Verb

-- What the driver runs: a method of the crate's process, or the wait for the finisher's task, of
-- which `outcome` and `shutdown` report the outcome only.
pub data Plan (P : Type 0) : Type 0 where
  waits finishes captures captures_bytes joins_outcome joins : P → Plan P
  profiles shuts_down : P → ℕ → Plan P

-- `reject_reentrant_runtime` or `require_event_loop`, before anything is taken.
unfoldable pub guard : Surface → Caller → Result PyErr (Unit {0})
unfolding reject_reentrant_runtime require_event_loop
guard sync c = reject_reentrant_runtime c.inside
guard async c = require_event_loop c.event_loop

-- `block_on` guards against a fork before it drives the plan; an awaitable does so when it is awaited.
unfoldable pub drive {ℓ} : {A : Type ℓ} → Surface → Caller → A → Result PyErr A
unfolding guard_against_fork
drive sync c a = elim (guard_against_fork c.pid c.owner).1 [ err e ↦ err e | ok u ↦ ok a ]
drive async c a = ok a

-- The argument is checked before the guard.
abbrev argument_error : Verb → Option PyErr
argument_error (profile (err e)) = some e
argument_error (shutdown (err e)) = some e
argument_error v = none

module _ {P : Type 0} where
  -- After a claim: `of_process` or `of_joint` is the plan.
  planned :
      Surface
      → Caller
      → (P → Plan P)
      → (P → Plan P)
      → Handle P × Result PyErr (Claimed P)
      → Handle P × Result PyErr (Plan P)
  unfolding drive
  planned s c of_process of_joint (h, err e) = (h, err e)
  planned s c of_process of_joint (h, ok (process p)) = (h, drive s c (of_process p))
  planned s c of_process of_joint (h, ok (joint p)) = (h, drive s c (of_joint p))

  captured :
      Surface → Caller → (P → Plan P) → Handle P × Result PyErr P → Handle P × Result PyErr (Plan P)
  unfolding drive
  captured s c plan (h, err e) = (h, err e)
  captured s c plan (h, ok p) = (h, drive s c (plan p))

  -- The body of a verb, once its guard has let the call through.
  claim_for : Surface → Caller → Handle P → Verb → Handle P × Result PyErr (Plan P)
  unfolding planned captured claim take_running_uncaptured
  claim_for s c h outcome = planned s c waits joins_outcome (claim h)
  claim_for s c h finish = planned s c finishes joins (claim h)
  claim_for s c h output = captured s c captures (take_running_uncaptured h)
  claim_for s c h output_bytes = captured s c captures_bytes (take_running_uncaptured h)
  claim_for s c h (profile (err e)) = (h, err e)
  claim_for s c h (profile (ok every)) =
      captured s c (λ p. profiles p every) (take_running_uncaptured h)
  claim_for s c h (shutdown (err e)) = (h, err e)
  claim_for s c h (shutdown (ok grace)) =
      planned s c (λ p. shuts_down p grace) joins_outcome (claim h)

  unfoldable pub consume : Verb → Surface → Caller → Handle P → Handle P × Result PyErr (Plan P)
  unfolding guard claim_for
  consume v s c h = elim (argument_error v) [
    | some e ↦ (h, err e)
    | none ↦ elim (guard s c) [ err e ↦ (h, err e) | ok u ↦ claim_for s c h v ]
  ]

-- What a teardown does: it kills the process and reaps it, or aborts the finisher's task, whose
-- process is dropped with it.
pub data Teardown (P : Type 0) : Type 0 where
  kill_and_reap abort : P → Teardown P

module _ {P : Type 0} where
  unfoldable pub teardown : Claimed P → Teardown P
  teardown (process p) = kill_and_reap p
  teardown (joint p) = abort p

  torn :
      Surface
      → Caller
      → Handle P × Option (Claimed P)
      → Handle P × Result PyErr (Option (Teardown P))
  unfolding drive teardown
  torn s c (h, none) = (h, ok none)
  torn s c (h, some claimed) = (h, drive s c (some (teardown claimed)))

  -- `__exit__` and `__aexit__`
  unfoldable pub exit : Surface → Caller → Handle P → Handle P × Result PyErr (Option (Teardown P))
  unfolding guard torn take_claim
  exit s c h = elim (guard s c) [ err e ↦ (h, err e) | ok u ↦ torn s c (take_claim h) ]

  aborts : JointFinish P → List (Teardown P)
  aborts (running p) = abort p ∷ []
  aborts f = []

  dropped : Option P → List P
  dropped none = []
  dropped (some p) = p ∷ []

  -- `Drop`: the tasks that it aborts and the processes that it drops.
  unfoldable pub drop_handle : Handle P → List (Teardown P) × List P
  unfolding aborts take dropped
  drop_handle h = (aborts h.finish, dropped (take h).1)
