-- ===== src/Sink/Poll.antt =====
-- src/convert.rs, lines 386 to 490: the `AsyncWrite` implementation. A blocking operation is an index
-- into what the pool will answer: `joined op` is `none` while it runs.
pub mod Protocol
use processkit_py.Common.{
  ℕ, zero, suc, Option, none, some, List, [], ◌∷◌, Result, ok, err, length, Text,
}
use processkit_py.Sink.{WriteError, task_failed}

-- `JoinHandle`'s output: what the call returned, or that its task failed.
pub data Joined : Type 0 where
  returned : Result WriteError (Unit {0}) → Joined
  failed : Joined

pub data Pending : Type 0 where
  write : ℕ → ℕ → Pending
  flush : ℕ → Pending

-- What has been dispatched to the blocking pool, newest first: a write with its buffer, or a flush.
pub data Job : Type 0 where
  writes : Text → Job
  flushes : Job

-- `next_op` numbers the operations; `jobs` is what was dispatched.
pub record Sink : Type 0 where
  pub pending : Option Pending
  pub next_op : ℕ
  pub jobs : List Job

abbrev pub new : Sink
new = record { pending = none; next_op = 0; jobs = [] }

unfoldable pub finish_write : Joined → ℕ → Result WriteError ℕ
finish_write (returned (ok u)) len = ok len
finish_write (returned (err e)) len = err e
finish_write failed len = err task_failed

unfoldable pub finish_flush : Joined → Result WriteError (Unit {0})
finish_flush (returned r) = r
finish_flush failed = err task_failed

dispatch_write : Text → Sink → Sink
dispatch_write buf s = record s {
  pending = some (write s.next_op (length buf));
  next_op = suc s.next_op;
  jobs = writes buf ∷ s.jobs;
}

dispatch_flush : Sink → Sink
dispatch_flush s = record s {
  pending = some (flush s.next_op);
  next_op = suc s.next_op;
  jobs = flushes ∷ s.jobs;
}

-- `Poll<A>` is `Option A`, with `none` for `Pending`. A round of a loop goes on, or returns.
abbrev pub Poll : Type 0 → Type 0
Poll A = Option A

pub data Round (A : Type 0) : Type 0 where
  again : Sink → Round A
  returns : Sink → Poll A → Round A

-- `joined op` is what polling the handle of `op` finds during this call.
abbrev pub Pool : Type 0
Pool = ℕ → Option Joined

module _ (joined : Pool) where
  -- A round of `poll_write`'s loop, by what `pending.take()` gives; `s` has an empty slot.
  write_round : Text → Sink → Option Pending → Round (Result WriteError ℕ)
  unfolding finish_write dispatch_write
  write_round buf s (some (write op len)) = elim (joined op) [
    | none ↦ returns (record s { pending = some (write op len) }) none
    | some j ↦ returns s (some (finish_write j len))
  ]
  write_round buf s (some (flush op)) = elim (joined op) [
    | none ↦ returns (record s { pending = some (flush op) }) none
    | some j ↦ again s
  ]
  write_round [] s none = returns s (some (ok 0))
  write_round (c ∷ cs) s none = again (dispatch_write (c ∷ cs) s)

  after_write : ℕ → Sink → Result WriteError ℕ → Round (Result WriteError (Unit {0}))
  after_write op s (ok n) = again s
  after_write op s (err e) = returns s (some (err e))

  -- A round of `poll_flush`'s loop.
  flush_round : Sink → Option Pending → Round (Result WriteError (Unit {0}))
  unfolding finish_write finish_flush dispatch_flush after_write
  flush_round s (some (write op len)) = elim (joined op) [
    | none ↦ returns (record s { pending = some (write op len) }) none
    | some j ↦ after_write op s (finish_write j len)
  ]
  flush_round s (some (flush op)) = elim (joined op) [
    | none ↦ returns (record s { pending = some (flush op) }) none
    | some j ↦ returns s (some (finish_flush j))
  ]
  flush_round s none = again (dispatch_flush s)

-- The loop over a round; `none` means that the fuel ran out.
unfoldable pub poll_loop :
    {A : Type 0} → (Sink → Option Pending → Round A) → ℕ → Sink → Option (Sink × Poll A)
poll_loop round zero s = none
poll_loop round (suc fuel) s = elim (round (record s { pending = none }) s.pending) [
  | returns s' r ↦ some (s', r)
  | again s' ↦ poll_loop round fuel s'
]

-- The loops turn at most three times: end a flush, dispatch, and poll what was dispatched.
abbrev pub max_rounds : ℕ
max_rounds = 3

unfoldable pub poll_write : Pool → Text → Sink → Option (Sink × Poll (Result WriteError ℕ))
unfolding poll_loop write_round
poll_write joined buf s = poll_loop (write_round joined buf) max_rounds s

unfoldable pub poll_flush : Pool → Sink → Option (Sink × Poll (Result WriteError (Unit {0})))
unfolding poll_loop flush_round
poll_flush joined s = poll_loop (flush_round joined) max_rounds s

-- `poll_shutdown`
unfoldable pub poll_shutdown : Pool → Sink → Option (Sink × Poll (Result WriteError (Unit {0})))
unfolding poll_flush
poll_shutdown joined s = poll_flush joined s
