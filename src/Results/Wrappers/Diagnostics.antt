-- ===== src/Results/Wrappers/Diagnostics.antt =====
-- src/result.rs, lines 311 to 329 and 484 to 504: the diagnostic of a result, as text and as bytes.
use processkit_py.Common.{ℕ, ◌≡◌, ◌≢◌, refl, List, [], ◌∷◌, Text, All, arith}
use processkit_py.Encodings.{trim}
use processkit_py.Errors.Json.{utf8}
use processkit_py.Results.Lossy.Utf8.{Scalar, from_utf8_lossy-utf8}
use processkit_py.Results.Wrappers.{CrateRun, process_diagnostic, bytes_diagnostic, or_text}

module _ {R E : Type 0} (crate : CrateRun R Text E) where
  -- The crate's diagnostic of a text result: the trimmed standard error, or else the trimmed standard
  -- output.
  pub record Documented (r : R) : Type 0 where
    pub stderr_first : trim (crate.stderr r) ≢ [] → crate.diagnostic r ≡ trim (crate.stderr r)
    pub then_stdout : trim (crate.stderr r) ≡ [] → crate.diagnostic r ≡ trim (crate.stdout r)

  diagnostic-lem :
      (r : R) (first : Text)
      → trim (crate.stderr r) ≡ first
      → Documented r
      → crate.diagnostic r ≡ or_text first (trim (crate.stdout r))
  unfolding or_text
  diagnostic-lem r [] e documented = documented.then_stdout e
  diagnostic-lem r (c ∷ s) e documented = ground (arith, documented.stderr_first, e)

module _ {R B E D : Type 0} (crate : CrateRun R Text E) (bytes : CrateRun B (List ℕ) D) where
  -- A text result and a bytes result with the same standard error, and with standard outputs of which
  -- the bytes are the UTF-8 encoding of the text, have the same diagnostic, if the crate's diagnostic of
  -- the text result is as documented.
  pub bytes_diagnostic-process_diagnostic :
      (r : R) (b : B)
      → Documented crate r
      → bytes.stderr b ≡ crate.stderr r
      → All Scalar (crate.stdout r)
      → bytes.stdout b ≡ utf8 (crate.stdout r)
      → bytes_diagnostic bytes b ≡ process_diagnostic crate r
  unfolding bytes_diagnostic process_diagnostic
  bytes_diagnostic-process_diagnostic r b documented same_stderr scalars encoded =
      rw
        (
          same_stderr,
          encoded,
          from_utf8_lossy-utf8 (crate.stdout r) scalars,
          diagnostic-lem crate r (trim (crate.stderr r)) refl documented,
        )
        refl
