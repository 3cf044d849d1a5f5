-- ===== src/Sink/Poll/Protocol.antt =====
-- src/convert.rs: what the answers of the polls mean for the operation in flight.
use processkit_py.Common.{
  ℕ, zero, suc, ◌<◌, ◌≡◌, ◌≢◌, ◌⊎◌, Option, none, some, List, ◌∷◌, arith, Result, ok, err, length,
  Text,
}
use processkit_py.Sink.{WriteError, task_failed}
use processkit_py.Sink.Poll.{
  Joined, returned, Pending, write, flush, Job, writes, flushes, Sink, Poll, Pool, poll_write,
  poll_flush,
}

-- The operation in the slot is the newest that was dispatched, and a write reports the length of a
-- buffer that is not empty.
abbrev pub Matches : Option Pending → ℕ → List Job → Type 0
Matches none n jobs = Unit
Matches (some (write op len)) n (writes buf ∷ jobs) = (suc op ≡ n) × (len ≡ length buf) × (0 < len)
Matches (some (flush op)) n (flushes ∷ jobs) = suc op ≡ n
Matches p n jobs = ⊥

abbrev pub IsValid : Sink → Type 0
IsValid s = Matches s.pending s.next_op s.jobs

-- The newest job is a write of a buffer of `n` units, which is not empty.
abbrev pub NewestWrite : List Job → ℕ → Type 0
NewestWrite (writes buf ∷ jobs) n = (n ≡ length buf) × (0 < n)
NewestWrite jobs n = ⊥

abbrev pub NewestFlush : List Job → Type 0
NewestFlush (flushes ∷ jobs) = Unit
NewestFlush jobs = ⊥

-- What the pool has for the newest operation.
abbrev pub newest : Pool → ℕ → Option Joined
newest joined zero = none
newest joined (suc op) = joined op

-- The newest operation has failed, with its own error or with its task.
abbrev pub FailedWith : Option Joined → WriteError → Type 0
FailedWith (some (returned (err e'))) e = e' ≡ e
FailedWith (some Joined.failed) e = e ≡ task_failed
FailedWith j e = ⊥

-- What the answer of `poll_write` means for the sink that it leaves.
abbrev pub WriteReport : Pool → Sink → Poll (Result WriteError ℕ) → Type 0
WriteReport joined t none = (t.pending ≢ none) × (newest joined t.next_op ≡ none)
WriteReport joined t (some (ok n)) =
    (t.pending ≡ none) × NewestWrite t.jobs n × (newest joined t.next_op ≡ some (returned (ok tt)))
WriteReport joined t (some (err e)) = (t.pending ≡ none) × FailedWith (newest joined t.next_op) e

abbrev pub FlushReport : Pool → Sink → Poll (Result WriteError (Unit {0})) → Type 0
FlushReport joined t none = (t.pending ≢ none) × (newest joined t.next_op ≡ none)
FlushReport joined t (some (ok u)) =
    (t.pending ≡ none) × NewestFlush t.jobs × (newest joined t.next_op ≡ some (returned (ok tt)))
FlushReport joined t (some (err e)) = (t.pending ≡ none) × FailedWith (newest joined t.next_op) e

-- The poll returned, and left a valid sink that is as its answer says; it dispatched `job` at most.
abbrev pub Answers :
    {A : Type 0} → (Sink → Poll A → Type 0) → Job → List Job → Option (Sink × Poll A) → Type 0
Answers Report job jobs none = ⊥
Answers Report job jobs (some (t, r)) =
    IsValid t × Report t r × ((t.jobs ≡ jobs) ⊎ (t.jobs ≡ job ∷ jobs))

-- A poll of a write, of a buffer that is not empty, returns after at most three rounds. If it is ready
-- with a count, the newest operation is a write that the pool has ended with success, and the count is
-- the length, not 0, of its buffer; if it fails, the pool has ended the newest operation with that error,
-- or its task has failed; in both cases nothing is left in the slot. If it is pending, the newest
-- operation is in the slot and still runs. It dispatches no more than one operation, a write of its own
-- buffer.
pub poll_write-Answers :
    (joined : Pool) (c : ℕ) (cs : Text) (s : Sink)
    → IsValid s
    → Answers (WriteReport joined) (writes (c ∷ cs)) s.jobs (poll_write joined (c ∷ cs) s)
unfolding poll_write
poll_write-Answers joined c cs s v = ground arith

-- A poll of a flush returns after at most three rounds. It is ready with success only if the newest
-- operation is a flush that has succeeded; a write in flight is waited for first, and its failure is
-- the flush's. It dispatches no more than one operation, a flush.
pub poll_flush-Answers :
    (joined : Pool) (s : Sink)
    → IsValid s
    → Answers (FlushReport joined) flushes s.jobs (poll_flush joined s)
unfolding poll_flush
poll_flush-Answers joined s v = ground arith
