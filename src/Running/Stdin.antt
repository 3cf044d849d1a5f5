-- ===== src/Running/Stdin.antt =====
-- src/running.rs, lines 448 to 533 and 1701 to 1745: the writer to a child's standard input, and the
-- methods that reach the process through its slot. An operation of the crate's writer is a step on a
-- world `W`, which may fail.
pub mod Lifecycle
mod Tests
use processkit_py.Common.{
  ℕ, Option, none, some, List, [], ◌∷◌, ◌||◌, ◌==◌, if◌then◌else◌, Result, ok, err, ok_or, Text,
}
use processkit_py.Errors.{PyErr, os_error, value_error, process_error}
use processkit_py.Running.{Handle}

-- `std::io::Error`, as far as its kind is looked at.
pub data IoError : Type 0 where
  invalid_input : IoError
  failed : PyErr → IoError

-- The crate's writer, on a world.
pub record Writer (W : Type 0) : Type 0 where
  pub write : List ℕ → W → W × Result IoError (Unit {0})
  pub write_line : Text → W → W × Result IoError (Unit {0})
  pub send_control : ℕ → W → W × Result IoError (Unit {0})
  pub flush : W → W × Result IoError (Unit {0})
  pub finish : W → W × Result IoError (Unit {0})

-- `PyErr::from`, and the mapping of `send_control`
unfoldable pub from_io : IoError → PyErr
from_io invalid_input = os_error
from_io (failed e) = e

unfoldable pub from_control : IoError → PyErr
from_control invalid_input = value_error
from_control (failed e) = e

-- `PyProcessStdin`: the writer in its slot, and the world.
abbrev pub Stdin : Type 0 → Type 0
Stdin W = Option (Writer W) × W

-- What a method leaves, and what it answers.
abbrev pub Answered : Type 0 → Type 0
Answered W = Stdin W × Result PyErr (Unit {0})

unfoldable pub mapped : (IoError → PyErr) → Result IoError (Unit {0}) → Result PyErr (Unit {0})
mapped f (ok u) = ok u
mapped f (err e) = err (f e)

module _ {W : Type 0} where
  -- The section under the lock that the four writing methods share.
  with_writer :
      (IoError → PyErr) → (Writer W → W → W × Result IoError (Unit {0})) → Stdin W → Answered W
  unfolding mapped
  with_writer f op (none, w) = ((none, w), err os_error)
  with_writer f op (some writer, w) = let r = op writer w in ((some writer, r.0), mapped f r.1)

  unfoldable pub write : List ℕ → Stdin W → Answered W
  unfolding with_writer from_io
  write bytes s = with_writer from_io (λ writer. writer.write bytes) s

  unfoldable pub write_line : Text → Stdin W → Answered W
  unfolding with_writer from_io
  write_line line s = with_writer from_io (λ writer. writer.write_line line) s

  -- A text of exactly one character is required.
  unfoldable pub send_control : Text → Stdin W → Answered W
  unfolding with_writer from_control
  send_control [] s = (s, err value_error)
  send_control (c ∷ []) s = with_writer from_control (λ writer. writer.send_control c) s
  send_control (c ∷ d ∷ more) s = (s, err value_error)

  unfoldable pub flush : Stdin W → Answered W
  unfolding with_writer from_io
  flush s = with_writer from_io (λ writer. writer.flush) s

  unfoldable pub close : Stdin W → Answered W
  unfolding mapped from_io
  close (none, w) = ((none, w), ok tt)
  close (some writer, w) = let r = writer.finish w in ((none, r.0), mapped from_io r.1)

-- `RunningProcess.take_stdin`, `resize_pty` and `kill`: the process is reached in its slot. `P` is the
-- crate's process, with what these do to it.
module _ {P A : Type 0} where
  in_slot : (P → P × Result PyErr A) → Handle P → Option P → Handle P × Result PyErr A
  in_slot f h none = (h, err process_error)
  in_slot f h (some p) = let r = f p in (record h { inner = some r.0 }, r.1)

  unfoldable pub take_stdin : (P → P × Option A) → Handle P → Handle P × Result PyErr A
  unfolding in_slot
  take_stdin take h = in_slot (λ p. let r = take p in (r.0, ok_or process_error r.1)) h h.inner

  unfoldable pub resize_pty :
      (ℕ → ℕ → P → P × Result PyErr A) → ℕ → ℕ → Handle P → Handle P × Result PyErr A
  unfolding in_slot
  resize_pty resize cols rows h =
      if cols == 0 || rows == 0 then (h, err value_error) else in_slot (resize cols rows) h h.inner

  -- `runtime` is what `runtime()` answers.
  unfoldable pub kill_now :
      Result PyErr (Unit {0}) → (P → P × Result PyErr A) → Handle P → Handle P × Result PyErr A
  unfolding in_slot
  kill_now (err e) start_kill h = (h, err e)
  kill_now (ok u) start_kill h = in_slot start_kill h h.inner
