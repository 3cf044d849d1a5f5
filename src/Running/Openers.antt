-- ===== src/Running/Openers.antt =====
-- src/running.rs, lines 224 to 273, 1037 to 1066 and 1383 to 1518: the verbs that open a stream over the
-- process in its slot, and the arguments of a probe of the tail.
use processkit_py.Common.{
  ℕ, Bool, true, false, ◌||◌, ◌&&◌, Option, none, some, [], ◌∷◌, ◌==◌, Result, ok, err, ◌>>=◌,
  map_ok, Text,
}
use processkit_py.Durations.{F64, nonnegative_duration}
use processkit_py.Errors.{PyErr, process_error, type_error}
use processkit_py.Running.{Handle}
use processkit_py.Running.Events.{Drive}
use processkit_py.Running.Tail.{clamp_timeout}

-- A predicate: a text, something callable, which `calls` stands for, or anything else.
pub data Predicate : Type 0 where
  text : Text → Predicate
  callable : (Text → Result PyErr Bool) → Predicate
  other : Predicate

pub data TailMatcher : Type 0 where
  substring : Text → TailMatcher
  calls : (Text → Result PyErr Bool) → TailMatcher

unfoldable pub extract_matcher : Predicate → Result PyErr TailMatcher
extract_matcher (text needle) = ok (substring needle)
extract_matcher (callable f) = ok (calls f)
extract_matcher other = err type_error

-- `str::contains`
unfoldable pub starts_with : Text → Text → Bool
starts_with [] tail = true
starts_with (c ∷ needle) [] = false
starts_with (c ∷ needle) (d ∷ tail) = c == d && starts_with needle tail

unfoldable pub contains_text : Text → Text → Bool
unfolding starts_with
contains_text needle [] = starts_with needle []
contains_text needle (d ∷ tail) = starts_with needle (d ∷ tail) || contains_text needle tail

-- `TailMatcher::matches`; the Boolean is whether the interpreter can be attached.
unfoldable pub matches : TailMatcher → Bool → Text → Result PyErr Bool
unfolding contains_text
matches (substring needle) attached tail = ok (contains_text needle tail)
matches (calls f) true tail = f tail
matches (calls f) false tail = ok false

unfoldable pub tail_probe_args : Predicate → F64 → Result PyErr (TailMatcher × ℕ)
unfolding extract_matcher nonnegative_duration
tail_probe_args predicate timeout = do
  matcher ← extract_matcher predicate
  within ← nonnegative_duration timeout
  ok (matcher, clamp_timeout within)

-- `idle_guard`: the window of the guard; the process of the guard is the slot of the handle.
unfoldable pub idle_guard : Option ℕ → Option ℕ
idle_guard idle_timeout = idle_timeout

module _ {P S : Type 0} where
  opened_by : (P → P × Result PyErr S) → Handle P → Option P → Handle P × Result PyErr S
  opened_by f h none = (h, err process_error)
  opened_by f h (some p) = let r = f p in (record h { inner = some r.0 }, r.1)

  with_drive : Handle P × Result PyErr S → Handle P × Result PyErr (S × Drive P)
  with_drive (h, ok stream) =
      (h, ok (stream, record { handle = h; reap_started = false; probe_after = 0 }))
  with_drive (h, err e) = (h, err e)

  -- `stdout_lines` and `stdout_json_lines`; `entered` is what `runtime()` answers, and `f` what the
  -- crate's process does, with its error mapped.
  unfoldable pub open_lines :
      Result PyErr (Unit {0})
      → Option ℕ
      → (P → P × Result PyErr S)
      → Handle P
      → Handle P × Result PyErr (S × Option ℕ)
  unfolding opened_by idle_guard
  open_lines (err e) idle f h = (h, err e)
  open_lines (ok u) idle f h =
      let r = opened_by f h h.inner in (r.0, map_ok (λ lines. (lines, idle_guard idle)) r.1)

  -- `stderr_lines`, `output_events` and `lifecycle_events`; the drive shares the slots of the handle.
  unfoldable pub open_events :
      Result PyErr (Unit {0})
      → Option ℕ
      → (P → P × Result PyErr S)
      → Handle P
      → Handle P × Result PyErr ((S × Drive P) × Option ℕ)
  unfolding opened_by with_drive idle_guard
  open_events (err e) idle f h = (h, err e)
  open_events (ok u) idle f h =
      let r = with_drive (opened_by f h h.inner) in
      (r.0, map_ok (λ events. (events, idle_guard idle)) r.1)
