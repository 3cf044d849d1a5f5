-- ===== src/Results/Wrappers.antt =====
-- src/result.rs, lines 129 to 571 and 605 to 635: what `RunProfile`, `ProcessResult` and `BytesResult` make
-- of the crate's values.
pub mod Diagnostics
mod Tests
use processkit_py.Common.{
  ℕ, Bool, true, false, ◌==◌, Option, none, some, List, [], ◌∷◌, Result, ok, err, Text,
}
use processkit_py.Errors.{PyErr, type_error}
use processkit_py.Sink.{PyInt}
use processkit_py.Results.Hashing.{Fed, code_or_signal, flag, number, optional_number}
use processkit_py.Encodings.{trim}
use processkit_py.Results.Lossy.{from_utf8_lossy}

-- The crate's results `R`, with a standard output `T`, and its errors `E`.
pub record CrateRun (R T E : Type 0) : Type 0 where
  pub stdout : R → T
  pub stderr : R → Text
  pub is_success : R → Bool
  pub ensure_success : R → Result E R
  pub diagnostic : R → Text

non_empty : Text → Option Text
non_empty [] = none
non_empty (c ∷ s) = some (c ∷ s)

or_text : Text → Text → Text
or_text [] later = later
or_text (c ∷ s) later = c ∷ s

module _ {R T E : Type 0} (crate : CrateRun R T E) where
  -- `ProcessResult.diagnostic`
  unfoldable pub process_diagnostic : R → Option Text
  unfolding non_empty
  process_diagnostic r = non_empty (crate.diagnostic r)

  -- `ensure_success` of both results; the object is the wrapper's own.
  unfoldable pub ensure_success : {O : Type 0} → (E → PyErr) → O → R → Result PyErr O
  ensure_success map_err self r = elim (crate.is_success r) [
    | true ↦ ok self
    | false ↦ elim (crate.ensure_success r) [ ok value ↦ ok self | err e ↦ err (map_err e) ]
  ]

-- `BytesResult.diagnostic`
unfoldable pub bytes_diagnostic : {R E : Type 0} → CrateRun R (List ℕ) E → R → Option Text
unfolding non_empty or_text
bytes_diagnostic crate r =
    non_empty (or_text (trim (crate.stderr r)) (trim (from_utf8_lossy (crate.stdout r))))

-- `Outcome.exited_zero`, on the code
unfoldable pub exited_zero : Option ℕ → Bool
exited_zero none = false
exited_zero (some code) = code == 0

-- The crate's `RunProfile`, with its times in nanoseconds.
pub record RunProfile : Type 0 where
  pub code : Option PyInt
  pub signal : Option PyInt
  pub timed_out : Bool
  pub duration : ℕ
  pub cpu_time : Option ℕ
  pub peak_memory_bytes : Option ℕ
  pub samples : ℕ

unfoldable pub feed_profile : RunProfile → List Fed
feed_profile p =
    code_or_signal p.code
    ∷ code_or_signal p.signal
    ∷ flag p.timed_out
    ∷ number p.duration
    ∷ optional_number p.cpu_time
    ∷ optional_number p.peak_memory_bytes
    ∷ number p.samples
    ∷ []

-- `__reduce__` of `RunProfile`, `ProcessResult` and `BytesResult`
unfoldable pub reduce_refused : Result PyErr (Unit {0})
reduce_refused = err type_error
