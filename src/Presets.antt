-- ===== src/Presets.antt =====
-- src/convert.rs, lines 491 to 871, and src/supervisor.rs, lines 89 to 99: the parsers of named
-- presets. The arms of a `match` over a key are a table, tried in order; the crate's enums have the
-- variants that the source names.
pub mod Spelling
pub mod Signal
mod Tests
use processkit_py.Common.{
  ℕ, Bool, ◌||◌, Option, none, some, List, [], ◌∷◌, ltb, leb, if◌then◌else◌, Result, ok, err, ◌>>=◌,
  Text, codes, to_ascii_lowercase, text_eq,
}
use processkit_py.Errors.{PyErr, value_error, type_error}
use processkit_py.Sink.{PyInt, nonnegative, negative, i64_max}

unfoldable pub normalize_named_preset : Text → Text
unfolding to_ascii_lowercase
normalize_named_preset value = to_ascii_lowercase value

unfoldable pub match_key : {A : Type 0} → List (Text × A) → Text → Result PyErr A
unfolding text_eq
match_key [] key = err value_error
match_key ((name, a) ∷ arms) key = if text_eq key name then ok a else match_key arms key

pub data StdioMode : Type 0 where
  piped inherit null : StdioMode

abbrev pub stdio_modes : List (Text × StdioMode)
stdio_modes =
    (codes "pipe", piped)
    ∷ (codes "piped", piped)
    ∷ (codes "inherit", inherit)
    ∷ (codes "null", null)
    ∷ (codes "discard", null)
    ∷ []

unfoldable pub parse_stdio_mode : Text → Result PyErr StdioMode
unfolding normalize_named_preset match_key
parse_stdio_mode mode = match_key stdio_modes (normalize_named_preset mode)

pub data Priority : Type 0 where
  idle below_normal normal above_normal high : Priority

abbrev pub priorities : List (Text × Priority)
priorities =
    (codes "idle", idle)
    ∷ (codes "below_normal", below_normal)
    ∷ (codes "normal", normal)
    ∷ (codes "above_normal", above_normal)
    ∷ (codes "high", high)
    ∷ []

unfoldable pub parse_priority : Text → Result PyErr Priority
unfolding normalize_named_preset match_key
parse_priority level = match_key priorities (normalize_named_preset level)

pub data OverflowMode : Type 0 where
  drop_oldest drop_newest error : OverflowMode

abbrev pub overflow_modes : List (Text × OverflowMode)
overflow_modes =
    (codes "drop_oldest", drop_oldest)
    ∷ (codes "drop_newest", drop_newest)
    ∷ (codes "error", error)
    ∷ []

unfoldable pub parse_overflow_mode : Text → Result PyErr OverflowMode
unfolding normalize_named_preset match_key
parse_overflow_mode on_overflow = match_key overflow_modes (normalize_named_preset on_overflow)

pub data LineTerminator : Type 0 where
  newline carriage_return : LineTerminator

abbrev pub line_terminators : List (Text × LineTerminator)
line_terminators =
    (codes "newline", newline)
    ∷ (codes "lf", newline)
    ∷ (codes "carriage_return", carriage_return)
    ∷ (codes "cr", carriage_return)
    ∷ []

unfoldable pub parse_line_terminator : Text → Result PyErr LineTerminator
unfolding normalize_named_preset match_key
parse_line_terminator mode = match_key line_terminators (normalize_named_preset mode)

pub data RestartPolicy : Type 0 where
  always never on_crash : RestartPolicy

abbrev pub restart_policies : List (Text × RestartPolicy)
restart_policies =
    (codes "always", always)
    ∷ (codes "never", never)
    ∷ (codes "on_crash", on_crash)
    ∷ (codes "on-crash", on_crash)
    ∷ (codes "oncrash", on_crash)
    ∷ []

unfoldable pub parse_restart_policy : Text → Result PyErr RestartPolicy
unfolding normalize_named_preset match_key
parse_restart_policy name = match_key restart_policies (normalize_named_preset name)

-- What the crate's error says of itself to a retry condition.
pub record Classified : Type 0 where
  pub is_transient : Bool
  pub is_timeout : Bool

unfoldable pub is_transient_classifier : Classified → Bool
is_transient_classifier e = e.is_transient

unfoldable pub is_transient_or_timeout_classifier : Classified → Bool
is_transient_or_timeout_classifier e = e.is_transient || e.is_timeout

abbrev pub retry_conditions : List (Text × (Classified → Bool))
retry_conditions =
    (codes "transient", is_transient_classifier)
    ∷ (codes "transient_or_timeout", is_transient_or_timeout_classifier)
    ∷ []

unfoldable pub parse_retry_if : Text → Result PyErr (Classified → Bool)
unfolding normalize_named_preset match_key
parse_retry_if name = match_key retry_conditions (normalize_named_preset name)

-- The crate's `OutputBufferPolicy`, as its builders set it.
pub record OutputBufferPolicy : Type 0 where
  pub max_bytes : Option ℕ
  pub max_lines : Option ℕ
  pub overflow : OverflowMode

-- `bounded` or `unbounded`, then `with_max_bytes` if bytes are bounded, then `with_overflow`; `fresh`
-- is the policy that the crate's two constructors build for a bound on the lines.
unfoldable pub build_output_buffer_policy :
    (Option ℕ → OutputBufferPolicy) → Option ℕ → Option ℕ → Text → Result PyErr OutputBufferPolicy
unfolding parse_overflow_mode
build_output_buffer_policy fresh none none on_overflow = err value_error
build_output_buffer_policy fresh (some bytes) max_lines on_overflow = do
  overflow ← parse_overflow_mode on_overflow
  ok (record (fresh max_lines) { max_bytes = some bytes; overflow = overflow })
build_output_buffer_policy fresh none (some lines) on_overflow = do
  overflow ← parse_overflow_mode on_overflow
  ok (record (fresh (some lines)) { overflow = overflow })

-- A Python argument: a `bool` is an `int` too, and is tested for first.
pub data Arg : Type 0 where
  bool : Bool → Arg
  int : PyInt → Arg
  str : Text → Arg
  object : Arg

pub data IoPriority : Type 0 where
  idle : IoPriority
  best_effort real_time : ℕ → IoPriority

-- `level.extract::<i64>()`, with an overflow reported as a `ValueError`.
level_in_i64 : PyInt → Result PyErr PyInt
level_in_i64 (nonnegative n) = if ltb i64_max n then err value_error else ok (nonnegative n)
level_in_i64 (negative n) = if ltb i64_max n then err value_error else ok (negative n)

unfoldable pub io_level : Option Arg → Result PyErr (Option PyInt)
unfolding level_in_i64
io_level none = ok none
io_level (some (int n)) = do level ← level_in_i64 n; ok (some level)
io_level (some arg) = err type_error

with_level : (ℕ → IoPriority) → Option PyInt → Result PyErr IoPriority
with_level class none = err value_error
with_level class (some (negative n)) = err value_error
with_level class (some (nonnegative n)) = if leb n 7 then ok (class n) else err value_error

without_level : Option PyInt → Result PyErr IoPriority
without_level none = ok IoPriority.idle
without_level (some n) = err value_error

unfoldable pub parse_io_priority : Text → Option Arg → Result PyErr IoPriority
unfolding normalize_named_preset text_eq io_level with_level without_level
parse_io_priority class_name level = do
  n ← io_level level
  let key = normalize_named_preset class_name
  if text_eq key (codes "idle")
      then without_level n
      else if text_eq key (codes "best_effort")
      then with_level best_effort n
      else if text_eq key (codes "real_time")
      then with_level real_time n
      else err value_error
