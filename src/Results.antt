-- ===== src/Results.antt =====
-- src/result.rs: the values that a run gives to Python, how they compare and how they are pickled. The
-- crate's `Outcome` is a parameter: it is what its three accessors show and what its scripted runner
-- makes of a reply.
pub mod Unpickle
pub mod Pickle
pub mod Streams
pub mod Hashing
pub mod Lossy
pub mod Wrappers
mod Tests
use processkit_py.Common.{
  ℕ, Bool, true, false, not, ◌&&◌, ◌||◌, Option, none, some, is_some, if◌then◌else◌, Result, ok,
  err, ◌>>=◌, map_ok, ◌>>◌, Text, codes, text_eq,
}
use processkit_py.Errors.{PyErr, value_error, process_error}
use processkit_py.Sink.{PyInt}

-- `processkit::testing::Reply`, as far as it is built here.
pub data Reply : Type 0 where
  timeout : Reply
  fail : PyInt → Reply
  signalled : Option PyInt → Reply

-- One poll of a scripted run.
pub data Polled (O : Type 0) : Type 0 where
  ready : Result PyErr O → Polled O
  pending : Polled O

pub record CrateOutcome (O : Type 0) : Type 0 where
  pub code : O → Option PyInt
  pub signal : O → Option PyInt
  pub timed_out : O → Bool
  pub scripted : Reply → Polled O

-- The crate's `ProcessEvent`; `other` is a kind that is not known here.
pub data ProcessEvent (O : Type 0) : Type 0 where
  started : Option ℕ → ProcessEvent O
  stdout stderr : Text → ProcessEvent O
  exited : O → ProcessEvent O
  other : ProcessEvent O

pub record OutputEvent : Type 0 where
  pub is_stderr : Bool
  pub text : Text

pub data Kind : Type 0 where
  started stdout stderr exited unknown : Kind

pub record LifecycleEvent (O : Type 0) : Type 0 where
  pub kind : Kind
  pub pid : Option ℕ
  pub text : Option Text
  pub outcome : Option O

pub record Finished (O : Type 0) : Type 0 where
  pub outcome : O
  pub stderr : Text

-- The arguments of `LifecycleEvent._unpickle`.
pub record Flat : Type 0 where
  pub kind : Text
  pub pid : Option ℕ
  pub text : Option Text
  pub has_outcome : Bool
  pub code : Option PyInt
  pub signal : Option PyInt
  pub timed_out : Bool

unfoldable pub kind_name : Kind → Text
kind_name started = codes "started"
kind_name stdout = codes "stdout"
kind_name stderr = codes "stderr"
kind_name exited = codes "exited"
kind_name unknown = codes "unknown"

-- `LifecycleEvent.stream`
unfoldable pub lifecycle_stream : Kind → Option Text
lifecycle_stream stdout = some (codes "stdout")
lifecycle_stream stderr = some (codes "stderr")
lifecycle_stream kind = none

-- `OutputEvent.stream`
unfoldable pub output_stream : OutputEvent → Text
output_stream e = if e.is_stderr then codes "stderr" else codes "stdout"

unfoldable pub from_event : {O : Type 0} → ProcessEvent O → Option OutputEvent
from_event (stdout line) = some (record { is_stderr = false; text = line })
from_event (stderr line) = some (record { is_stderr = true; text = line })
from_event event = none

unfoldable pub lifecycle_event : {O : Type 0} → ProcessEvent O → LifecycleEvent O
lifecycle_event (started pid) = record {
  kind = Kind.started;
  pid = pid;
  text = none;
  outcome = none;
}
lifecycle_event (stdout line) = record {
  kind = Kind.stdout;
  pid = none;
  text = some line;
  outcome = none;
}
lifecycle_event (stderr line) = record {
  kind = Kind.stderr;
  pid = none;
  text = some line;
  outcome = none;
}
lifecycle_event (exited outcome) = record {
  kind = Kind.exited;
  pid = none;
  text = none;
  outcome = some outcome;
}
lifecycle_event other = record { kind = Kind.unknown; pid = none; text = none; outcome = none }

-- The guards of `_unpickle` on the fields of the outcome.
unfoldable pub outcome_fields : Flat → Result PyErr (Unit {0})
outcome_fields f =
    if not f.has_outcome && (is_some f.code || is_some f.signal || f.timed_out)
    then err value_error
    else if f.has_outcome
        && ((f.timed_out && (is_some f.code || is_some f.signal))
            || (is_some f.code && is_some f.signal))
    then err value_error
    else ok tt

-- An arm of the `match` on the kind, with its guard; all arms end in the same error.
arm : Kind → Bool → Result PyErr Kind
arm kind fits = if fits then ok kind else err value_error

unfoldable pub parse_kind : Flat → Result PyErr Kind
unfolding text_eq arm
parse_kind f =
    let no_pid = not (is_some f.pid) in
    let no_text = not (is_some f.text) in
    if text_eq f.kind (codes "started")
    then arm started (no_text && not f.has_outcome)
    else if text_eq f.kind (codes "stdout")
    then arm stdout (no_pid && is_some f.text && not f.has_outcome)
    else if text_eq f.kind (codes "stderr")
    then arm stderr (no_pid && is_some f.text && not f.has_outcome)
    else if text_eq f.kind (codes "exited")
    then arm exited (no_pid && no_text && f.has_outcome)
    else if text_eq f.kind (codes "unknown")
    then arm unknown (no_pid && no_text && not f.has_outcome)
    else err value_error

unfoldable pub reduce_output : OutputEvent → Bool × Text
reduce_output e = (e.is_stderr, e.text)

unfoldable pub unpickle_output : Bool × Text → OutputEvent
unpickle_output (is_stderr, line) = record { is_stderr = is_stderr; text = line }

module _ {O : Type 0} (crate : CrateOutcome O) where
  reply_of : Option PyInt → Option PyInt → Bool → Reply
  reply_of code signal true = timeout
  reply_of (some code) signal false = fail code
  reply_of none signal false = signalled signal

  polled : Polled O → Result PyErr O
  polled (ready result) = result
  polled pending = err process_error

  unfoldable pub scripted_outcome : Option PyInt → Option PyInt → Bool → Result PyErr O
  unfolding reply_of polled
  scripted_outcome code signal timed_out = polled (crate.scripted (reply_of code signal timed_out))

  -- `Outcome.__reduce__` and `Outcome._unpickle`, without the factory
  unfoldable pub reduce_outcome : O → Option PyInt × Option PyInt × Bool
  reduce_outcome o = (crate.code o, crate.signal o, crate.timed_out o)

  unfoldable pub unpickle_outcome : Option PyInt × Option PyInt × Bool → Result PyErr O
  unfolding scripted_outcome
  unpickle_outcome (code, signal, timed_out) = scripted_outcome code signal timed_out

  unfoldable pub reduce_finished : Finished O → Text × Option PyInt × Option PyInt × Bool
  reduce_finished f =
      (f.stderr, crate.code f.outcome, crate.signal f.outcome, crate.timed_out f.outcome)

  unfoldable pub unpickle_finished :
      Text × Option PyInt × Option PyInt × Bool → Result PyErr (Finished O)
  unfolding scripted_outcome
  unpickle_finished (errors, code, signal, timed_out) = do
    outcome ← scripted_outcome code signal timed_out
    ok (record { outcome = outcome; stderr = errors })

  unfoldable pub flat_code : Option O → Option PyInt
  flat_code none = none
  flat_code (some o) = crate.code o

  unfoldable pub flat_signal : Option O → Option PyInt
  flat_signal none = none
  flat_signal (some o) = crate.signal o

  unfoldable pub flat_timed_out : Option O → Bool
  flat_timed_out none = false
  flat_timed_out (some o) = crate.timed_out o

  unfoldable pub reduce_lifecycle : LifecycleEvent O → Flat
  unfolding kind_name flat_code flat_signal flat_timed_out
  reduce_lifecycle e = record {
    kind = kind_name e.kind;
    pid = e.pid;
    text = e.text;
    has_outcome = is_some e.outcome;
    code = flat_code e.outcome;
    signal = flat_signal e.outcome;
    timed_out = flat_timed_out e.outcome;
  }

  unfoldable pub optional_outcome : Flat → Result PyErr (Option O)
  unfolding scripted_outcome
  optional_outcome f =
      if f.has_outcome then map_ok some (scripted_outcome f.code f.signal f.timed_out) else ok none

  unfoldable pub unpickle_lifecycle : Flat → Result PyErr (LifecycleEvent O)
  unfolding outcome_fields parse_kind optional_outcome
  unpickle_lifecycle f = do
    outcome_fields f
    kind ← parse_kind f
    outcome ← optional_outcome f
    ok (record { kind = kind; pid = f.pid; text = f.text; outcome = outcome })
