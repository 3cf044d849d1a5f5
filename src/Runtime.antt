-- ===== src/Runtime.antt =====
-- src/runtime.rs without the hub: the fork guard, the synchronous driver, the completion of a Future
-- on the loop's thread, the polling of cancellable work, and the lazy awaitable.
pub mod Completion
pub mod Lazy
pub mod Work
pub mod Bridge
pub mod Drive
mod Tests
use processkit_py.Common.{
  ℕ, zero, suc, ◌≡◌, ◌≢◌, ◌++◌, refl, arith, replicate, Bool, true, false, Option, none, some, List,
  [], ◌∷◌, ◌==◌, if◌then◌else◌, Result, ok, err,
}
use processkit_py.Errors.{PyErr, process_error}

-- `RUNTIME_OWNER_PID.compare_exchange(0, me, ..)`: the new owner, and the verdict.
unfoldable pub guard_against_fork : ℕ → ℕ → ℕ × Result PyErr (Unit {0})
guard_against_fork me owner =
    if owner == 0
    then (me, ok tt)
    else if owner == me
    then (owner, ok tt)
    else (owner, err process_error)

-- The owner after calls by the processes `pids`, in turn.
unfoldable pub guard_all : List ℕ → ℕ → ℕ
guard_all [] owner = owner
guard_all (me ∷ pids) owner = guard_all pids (guard_against_fork me owner).0

-- One turn of the loop in `block_on_interruptible`: the future is done, or the poll interval has
-- elapsed and `check_signals` found nothing or raised.
pub data Turn (A : Type 0) : Type 0 where
  done : A → Turn A
  elapsed : Option PyErr → Turn A

-- The loop, over the turns that the world deals it; `none` means that it is still waiting.
unfoldable pub block_loop : {A : Type 0} → List (Turn A) → Option (Result PyErr A)
block_loop [] = none
block_loop (done a ∷ turns) = some (ok a)
block_loop (elapsed (some e) ∷ turns) = some (err e)
block_loop (elapsed none ∷ turns) = block_loop turns

-- `reject_reentrant_runtime`: whether the thread is inside the runtime.
unfoldable pub reject_reentrant_runtime : Bool → Result PyErr (Unit {0})
reject_reentrant_runtime inside = if inside then err process_error else ok tt

-- `require_event_loop`: whether a loop runs on this thread.
unfoldable pub require_event_loop : Bool → Result PyErr (Unit {0})
require_event_loop running = if running then ok tt else err process_error

-- `block_on_interruptible` in the process `me`, with the runtime owned by `owner`.
unfoldable pub block_on_interruptible :
    {A : Type 0} → ℕ → ℕ → Bool → List (Turn A) → Option (Result PyErr A)
unfolding guard_against_fork reject_reentrant_runtime
block_on_interruptible me owner inside turns = elim (guard_against_fork me owner).1 [
  | err e ↦ some (err e)
  | ok u ↦ elim (reject_reentrant_runtime inside) [ err e ↦ some (err e) | ok v ↦ block_loop turns ]
]

guard_all-owned : (pids : List ℕ) (owner : ℕ) → owner ≢ 0 → guard_all pids owner ≡ owner
unfolding guard_all guard_against_fork
guard_all-owned [] owner h = refl
guard_all-owned (me ∷ pids) owner h = ground (arith, guard_all-owned pids owner)

-- The process that makes the first call owns the runtime for good: whatever processes call
-- afterwards, a call by `me` is let through exactly when `me` is that first process, and is refused
-- with a `ProcessError` otherwise. Process identifiers are not 0.
pub guard_against_fork-owner :
    (first me : ℕ) (pids : List ℕ)
    → first ≢ 0
    → guard_against_fork me (guard_all (first ∷ pids) 0)
      ≡ (first, if first == me then ok tt else err process_error)
unfolding guard_all guard_against_fork
guard_against_fork-owner first me pids h = rw (guard_all-owned pids first h) (ground arith)

abbrev pub idle_turns : {A : Type 0} → ℕ → List (Turn A)
idle_turns n = replicate n (elapsed none)

block_loop-idle :
    {A : Type 0} (n : ℕ) (turns : List (Turn A))
    → block_loop (idle_turns n ++ turns) ≡ block_loop turns
unfolding block_loop
block_loop-idle zero turns = refl
block_loop-idle (suc n) turns = block_loop-idle n turns

-- In the owner process, on a thread outside the runtime, a blocking call returns the value of its
-- future after any number of elapsed poll intervals, and raises the exception of the first signal
-- check that fails; inside the runtime, or in another process, it is refused at once.
pub block_on_interruptible-cases :
    {A : Type 0} (me owner n : ℕ) (a : A) (e : PyErr) (rest : List (Turn A))
    → owner ≢ 0
    → (block_on_interruptible owner owner false (idle_turns n ++ done a ∷ rest) ≡ some (ok a))
      × (block_on_interruptible owner owner false (idle_turns n ++ elapsed (some e) ∷ rest)
          ≡ some (err e))
      × (block_on_interruptible owner owner true (idle_turns n ++ done a ∷ rest)
          ≡ some (err process_error))
      × (me ≢ owner
          → block_on_interruptible me owner false (idle_turns n ++ done a ∷ rest)
            ≡ some (err process_error))
unfolding block_on_interruptible block_loop
block_on_interruptible-cases me owner n a e rest h = (
  ground (arith, block_loop-idle n (done a ∷ rest)),
  ground (arith, block_loop-idle n (elapsed (some e) ∷ rest)),
  ground arith,
  λ other. ground arith,
)
