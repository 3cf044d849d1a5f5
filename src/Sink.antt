-- ===== src/Sink.antt =====
-- src/convert.rs, lines 158 to 490: `PyWriterSink`, the bridge from the capture pump to a Python
-- object's `write()`. The writer is a state of its own, `W`, and what its methods do to it.
pub mod Write
pub mod Poll
mod Tests
use processkit_py.Common.{
  ℕ, zero, suc, Bool, true, false, Option, none, some, [], ◌∷◌, ltb, ◌==◌, if◌then◌else◌, Result,
  ok, err, drop, length, Text,
}

-- A Python integer: `negative n` is -(n + 1).
pub data PyInt : Type 0 where
  nonnegative : ℕ → PyInt
  negative : ℕ → PyInt

-- What a call of `write()` does: it raises, it returns an integer that is no `bool`, or it returns
-- anything else.
pub data Reply : Type 0 where
  raises : ℕ → Reply
  count : PyInt → Reply
  other : Reply

-- The messages of a failed write or flush.
pub data WriteError : Type 0 where
  raised : ℕ → WriteError
  out_of_range negative_count zero_count : WriteError
  too_many : ℕ → ℕ → WriteError
  finalizing task_failed : WriteError

-- `i64::MAX`; below `-i64::MAX - 1` the extraction fails too.
abbrev pub i64_max : ℕ
i64_max = 9223372036854775807

-- `value.extract::<i64>()`, and then the test for a negative count.
extract_count : PyInt → Result WriteError ℕ
extract_count (negative n) = if ltb i64_max n then err out_of_range else err negative_count
extract_count (nonnegative n) = if ltb i64_max n then err out_of_range else ok n

-- The checks of a count that fits: `usize::try_from`, zero, and more than what remains.
check_count : ℕ → ℕ → Result WriteError ℕ → Result WriteError ℕ
check_count usize_max remaining (err e) = err e
check_count usize_max remaining (ok written) =
    if ltb usize_max written
    then err out_of_range
    else if written == 0
    then err zero_count
    else if ltb remaining written
    then err (too_many written remaining)
    else ok written

-- How many units of the remaining buffer the call accepted.
unfoldable pub validate_py_write_result : ℕ → Reply → ℕ → Result WriteError ℕ
unfolding extract_count check_count
validate_py_write_result usize_max (raises e) remaining = err (raised e)
validate_py_write_result usize_max other remaining = ok remaining
validate_py_write_result usize_max (count n) remaining =
    check_count usize_max remaining (extract_count n)

-- The loop of `call_py_write`, over bytes in raw mode and over characters in text mode: both cut off
-- what the writer has accepted and offer the rest. `none` means that the fuel ran out.
unfoldable pub write_loop :
    {W : Type 0}
    → (W → Text → Reply × W)
    → ℕ
    → ℕ
    → W
    → Text
    → Option (Result WriteError (Unit {0}) × W)
write_loop write usize_max fuel w [] = some (ok tt, w)
write_loop write usize_max zero w (x ∷ xs) = none
write_loop write usize_max (suc fuel) w (x ∷ xs) =
    let (reply, w') = write w (x ∷ xs) in
    elim (validate_py_write_result usize_max reply (length (x ∷ xs))) [
      | err e ↦ some (err e, w')
      | ok written ↦ write_loop write usize_max fuel w' (drop written (x ∷ xs))
    ]

-- `call_py_write`: `attached` is whether the interpreter can still be entered. The fuel is one round
-- for each unit of the buffer.
unfoldable pub call_py_write :
    {W : Type 0}
    → (W → Text → Reply × W)
    → ℕ
    → Bool
    → W
    → Text
    → Option (Result WriteError (Unit {0}) × W)
unfolding write_loop
call_py_write write usize_max attached w buffer =
    if attached
    then write_loop write usize_max (length buffer) w buffer
    else some (err finalizing, w)

-- What looking up `flush` and calling it does: no such attribute, one that is not callable, a lookup
-- that raises, a call that raises, or a call that returns.
pub data FlushReply : Type 0 where
  no_attribute not_callable returned : FlushReply
  lookup_raises call_raises : ℕ → FlushReply

unfoldable pub call_py_flush : Bool → FlushReply → Result WriteError (Unit {0})
call_py_flush false reply = err finalizing
call_py_flush true no_attribute = ok tt
call_py_flush true not_callable = ok tt
call_py_flush true returned = ok tt
call_py_flush true (lookup_raises e) = err (raised e)
call_py_flush true (call_raises e) = err (raised e)
