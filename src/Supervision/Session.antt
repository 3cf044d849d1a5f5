-- ===== src/Supervision/Session.antt =====
-- src/supervisor.rs, lines 471 to 478, 723 to 812 and 881 to 1034: the calls that take a supervisor
-- or its session. `S` is the crate's supervisor or session.
use processkit_py.Common.{
  ℕ, ◌+◌, ◌≤◌, ◌≡◌, Option, none, some, List, [], ◌∷◌, arith, Result, ok, err,
}
use processkit_py.Errors.{PyErr, process_error}
use processkit_py.Runtime.{guard_against_fork}
use processkit_py.Running.Verbs.{Surface, Caller, guard, drive}
use processkit_py.Running.Verbs.Consume.{Unforked}

-- A call on the supervisor or on the session; the grace period of `stop` is what
-- `nonnegative_duration` makes of the argument.
pub data Call : Type 0 where
  run start wait exit : Call
  stop : Result PyErr ℕ → Call

-- What a call obtains: the supervisor or the session, or nothing, for an exit after the end.
pub data Obtained (S : Type 0) : Type 0 where
  obtains : S → Obtained S
  nothing : Obtained S

module _ {S : Type 0} where
  -- `take_supervisor` and the session's `take`
  unfoldable pub take_open : Option S → Option S × Result PyErr (Obtained S)
  take_open none = (none, err process_error)
  take_open (some x) = (none, ok (obtains x))

  -- `take_if_open`
  unfoldable pub take_if_open : Option S → Option S × Result PyErr (Obtained S)
  take_if_open none = (none, ok nothing)
  take_if_open (some x) = (none, ok (obtains x))

  -- The driver, for what was taken; `start` asks for the runtime itself, with the same guard.
  driven :
      Surface → Caller → Option S × Result PyErr (Obtained S) → Option S × Result PyErr (Obtained S)
  unfolding drive
  driven s c (slot, err e) = (slot, err e)
  driven s c (slot, ok nothing) = (slot, ok nothing)
  driven s c (slot, ok (obtains x)) = (slot, drive s c (obtains x))

  guarded :
      Surface
      → Caller
      → Option S
      → Option S × Result PyErr (Obtained S)
      → Option S × Result PyErr (Obtained S)
  unfolding guard driven
  guarded s c slot taken = elim (guard s c) [ err e ↦ (slot, err e) | ok u ↦ driven s c taken ]

  unfoldable pub call : Call → Surface → Caller → Option S → Option S × Result PyErr (Obtained S)
  unfolding guarded take_open take_if_open
  call run s c slot = guarded s c slot (take_open slot)
  call start s c slot = guarded s c slot (take_open slot)
  call wait s c slot = guarded s c slot (take_open slot)
  call (stop (err e)) s c slot = (slot, err e)
  call (stop (ok grace)) s c slot = guarded s c slot (take_open slot)
  call exit s c slot = guarded s c slot (take_if_open slot)

  -- Calls in turn, and what they obtained.
  abbrev found : Result PyErr (Obtained S) → ℕ
  found (ok (obtains x)) = 1
  found r = 0

  abbrev pub call_all : List (Call × Surface × Caller) → Option S → Option S × ℕ
  call_all [] slot = (slot, 0)
  call_all ((k, s, c) ∷ calls) slot =
      let (slot', r) = call k s c slot in
      let (slot'', n) = call_all calls slot' in (slot'', found r + n)

  abbrev pub open_count : Option S → ℕ
  open_count none = 0
  open_count (some x) = 1

  call-spends :
      (k : Call) (s : Surface) (c : Caller) (slot : Option S)
      → found (call k s c slot).1 + open_count (call k s c slot).0 ≤ open_count slot
  unfolding call drive
  call-spends k s c slot = ground arith

  -- Of any calls on a supervisor, or on a session, at most one obtains it, and none does while the
  -- slot is still full afterwards.
  pub call_all-once :
      (calls : List (Call × Surface × Caller)) (slot : Option S)
      → (call_all calls slot).1 + open_count (call_all calls slot).0 ≤ open_count slot
  call_all-once [] slot = omega arith
  call_all-once ((k, s, c) ∷ calls) slot =
      omega (arith, call-spends k s c slot, call_all-once calls (call k s c slot).0)

  -- In the process that owns the runtime, a call that raises leaves the supervisor or the session
  -- where it was; a call after the end raises a `ProcessError`, but an exit after the end, if its
  -- guard lets it through, succeeds and does nothing.
  pub call-refused_keeps :
      (k : Call) (s : Surface) (c : Caller) (slot : Option S) (e : PyErr)
      → Unforked c
      → ((call k s c slot).1 ≡ err e → (call k s c slot).0 ≡ slot)
        × (guard s c ≡ ok tt
            → (call wait s c none ≡ (none, err process_error))
              × (call exit s c none ≡ (none, ok nothing)))
  unfolding call drive guard_against_fork
  call-refused_keeps k s c slot e u = ground arith
