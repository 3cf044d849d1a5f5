-- ===== src/Running/Verbs/Exit.antt =====
-- src/running.rs: the end of the run with its handle, or at the end of the context manager's block.
use processkit_py.Common.{◌≡◌, Option, some, List, [], ◌∷◌, ◌++◌, arith, Result, ok, err}
use processkit_py.Errors.{PyErr}
use processkit_py.Runtime.{guard_against_fork}
use processkit_py.Running.{Handle, IsValid}
use processkit_py.Running.Events.Handover.{whereabouts}
use processkit_py.Running.Verbs.{
  Surface, Caller, guard, drive, Teardown, kill_and_reap, abort, exit, drop_handle,
}
use processkit_py.Running.Verbs.Consume.{Unforked}

module _ {P : Type 0} where
  -- The process that a teardown ends.
  abbrev pub torn_down : Teardown P → P
  torn_down (kill_and_reap p) = p
  torn_down (abort p) = p

  abbrev pub ended : Result PyErr (Option (Teardown P)) → List P
  ended (ok (some t)) = torn_down t ∷ []
  ended r = []

  abbrev pub all_torn : List (Teardown P) → List P
  all_torn [] = []
  all_torn (t ∷ ts) = torn_down t ∷ all_torn ts

  -- An exit of the handle's context manager that its guard lets through, in the process that owns the
  -- runtime, tears down exactly the process that the handle still has, in its slot or with the
  -- finisher of its event stream, and leaves nothing in the handle; a refused exit changes nothing.
  pub exit-tears_down :
      (s : Surface) (c : Caller) (h : Handle P)
      → IsValid h
      → Unforked c
      → (guard s c ≡ ok tt
          → (ended (exit s c h).1 ≡ whereabouts h) × (whereabouts (exit s c h).0 ≡ []))
        × ((e : PyErr) → guard s c ≡ err e → exit s c h ≡ (h, err e))
  unfolding exit drive guard_against_fork
  exit-tears_down s c h v u = ground arith

  -- Dropping a handle, of which at most one slot is full, ends exactly the process that it still has:
  -- it is dropped out of its slot, or the finisher's task that owns it is aborted.
  pub drop_handle-ends :
      (h : Handle P) → IsValid h → all_torn (drop_handle h).0 ++ (drop_handle h).1 ≡ whereabouts h
  unfolding drop_handle
  drop_handle-ends h v = ground arith
