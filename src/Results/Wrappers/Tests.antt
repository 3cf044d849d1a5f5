-- ===== src/Results/Wrappers/Tests.antt =====
-- src/result.rs: a blank standard error, and a standard output with a character of two bytes and one that
-- is cut short.
use processkit_py.Common.{
  ℕ, ◌≡◌, refl, false, some, List, [], ◌∷◌, Text, err, codes, arith, All, inl,
}
use processkit_py.Encodings.{trim}
use processkit_py.Errors.Json.{utf8}
use processkit_py.Results.Lossy.{from_utf8_lossy}
use processkit_py.Results.Lossy.Utf8.{Scalar}
use processkit_py.Results.Wrappers.{CrateRun, process_diagnostic, bytes_diagnostic, or_text}
use processkit_py.Results.Wrappers.Diagnostics.{Documented, bytes_diagnostic-process_diagnostic}

-- A result is its two streams.
abbrev of_streams : {T : Type 0} → (T → Text) → CrateRun (T × Text) T ℕ
of_streams decoded = record {
  stdout = λ r. r.0;
  stderr = λ r. r.1;
  is_success = λ r. false;
  ensure_success = λ r. err 1;
  diagnostic = λ r. or_text (trim r.1) (trim (decoded r.0));
}

abbrev output : Text
output = 0x20 ∷ 0xe9 ∷ 0x6f ∷ 0xa ∷ []

abbrev result : Text × Text
result = (output, codes "  ")

abbrev raw_result : List ℕ × Text
raw_result = (utf8 output, codes "  ")

documented : Documented (of_streams (λ (t : Text). t)) result
unfolding trim or_text
documented = record {
  stderr_first = λ some_text. absurd (some_text refl);
  then_stdout = λ blank. refl;
}

scalars : All Scalar output
scalars = (
  (omega arith, inl (omega arith)),
  (
    (omega arith, inl (omega arith)),
    ((omega arith, inl (omega arith)), ((omega arith, inl (omega arith)), tt)),
  ),
)

bytes_diagnostic-process_diagnostic_example :
    bytes_diagnostic (of_streams from_utf8_lossy) raw_result
    ≡ process_diagnostic (of_streams (λ (t : Text). t)) result
bytes_diagnostic-process_diagnostic_example =
    bytes_diagnostic-process_diagnostic (of_streams (λ (t : Text). t)) (of_streams from_utf8_lossy)
      result raw_result documented refl scalars refl

trimmed : bytes_diagnostic (of_streams from_utf8_lossy) raw_result ≡ some (0xe9 ∷ 0x6f ∷ [])
unfolding bytes_diagnostic utf8 from_utf8_lossy trim
trimmed = refl

cut_short : from_utf8_lossy (0xe2 ∷ 0x82 ∷ 0x41 ∷ 0xff ∷ []) ≡ 0xfffd ∷ 0x41 ∷ 0xfffd ∷ []
unfolding from_utf8_lossy
cut_short = refl
