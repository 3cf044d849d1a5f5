-- ===== src/Running/Tail.antt =====
-- src/running.rs, lines 275 to 444: `probe_partial_tail`, which waits for an unterminated tail of
-- output that matches. Times are in nanoseconds.
pub mod Verdict
use processkit_py.Common.{
  ℕ, zero, suc, ◌+◌, ◌-◌, ◌*◌, Bool, true, false, Option, none, some, min, ◌==◌, if◌then◌else◌,
  Text, Result, ok, err,
}
use processkit_py.Errors.{PyErr, process_error, wait_timeout}

-- `TAIL_POLL_INTERVAL` and `MAX_TAIL_TIMEOUT`.
abbrev pub tail_poll_interval : ℕ
tail_poll_interval = 50_000_000

abbrev pub max_tail_timeout : ℕ
max_tail_timeout = 10 * 365 * 24 * 60 * 60 * 1_000_000_000

pub record TailLook : Type 0 where
  pub tail : Option Text
  pub closed : Bool

-- What one poll of the crate's waiting probe answers, with a predicate that always declines.
pub data LookPoll : Type 0 where
  pending not_ready : LookPoll
  failed : PyErr → LookPoll
  matched : Text → LookPoll

-- `present` is whether the slot holds the process, `seen` the tail that the predicate was shown, and
-- an error is converted already.
unfoldable pub snapshot_tail : Bool → Option Text → LookPoll → Result PyErr TailLook
snapshot_tail false seen poll = err process_error
snapshot_tail true seen pending = ok (record { tail = seen; closed = false })
snapshot_tail true seen not_ready = ok (record { tail = seen; closed = true })
snapshot_tail true seen (failed e) = err e
snapshot_tail true seen (matched tail) = ok (record { tail = some tail; closed = false })

-- What the world does: what the snapshot of each round meets, what the matcher answers for a tail in
-- that round, how long the two take, and by how much each sleep overshoots.
pub record World : Type 0 where
  pub present : ℕ → Bool
  pub seen : ℕ → Option Text
  pub polled : ℕ → LookPoll
  pub matches : ℕ → Text → Result PyErr Bool
  pub took : ℕ → ℕ
  pub late : ℕ → ℕ

unfoldable pub look : World → ℕ → Result PyErr TailLook
unfolding snapshot_tail
look w i = snapshot_tail (w.present i) (w.seen i) (w.polled i)

-- How a look ends the probe, if it does.
unfoldable pub test_tail : (Text → Result PyErr Bool) → Option Text → Option (Result PyErr Text)
test_tail matches none = none
test_tail matches (some tail) = elim (matches tail) [
  | err e ↦ some (err e)
  | ok true ↦ some (ok tail)
  | ok false ↦ none
]

unfoldable pub test_look :
    (Text → Result PyErr Bool) → Result PyErr TailLook → Option (Result PyErr Text)
unfolding test_tail
test_look matches (err e) = some (err e)
test_look matches (ok l) = elim (test_tail matches l.tail) [
  | some r ↦ some r
  | none ↦ if l.closed then some (err process_error) else none
]

-- The loop, from round `i` at time `now`; `none` means that the fuel ran out.
unfoldable pub probe : World → ℕ → ℕ → ℕ → ℕ → Option (Result PyErr Text)
unfolding test_look look
probe w deadline zero i now = none
probe w deadline (suc fuel) i now =
    let looked = now + w.took i in
    let remaining = deadline - looked in
    let again =
      probe w deadline fuel (suc i) (looked + min tail_poll_interval remaining + w.late i) in
    elim (test_look (w.matches i) (look w i)) [
      | some r ↦ some r
      | none ↦ if remaining == 0 then some (err wait_timeout) else again
    ]

-- `within` is the timeout after the clamp of `tail_probe_args`.
abbrev pub clamp_timeout : ℕ → ℕ
clamp_timeout timeout = min timeout max_tail_timeout

unfoldable pub probe_partial_tail : World → ℕ → ℕ → ℕ → Option (Result PyErr Text)
probe_partial_tail w timeout start fuel = probe w (start + clamp_timeout timeout) fuel 0 start
