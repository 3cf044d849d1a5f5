-- ===== src/Command/Passed.antt =====
-- src/command.rs, lines 1172 to 1306, 1492 to 1549 and 1573 to 1581: the verbs of a command and of a
-- pipeline that pass the crate's result on.
use mathlib.Core.Option
use processkit_py.Common.{
  ◌∙◌, ap, refl, ℕ, ◌≡◌, ◌≢◌, Bool, false, Option, some, [], ◌∷◌, ◌++◌, Result, ok, err, ◌>>=◌,
  map_ok, map_error, Text,
}
use processkit_py.Command.{Wrapped}
use processkit_py.Errors.{PyErr}
use processkit_py.Runtime.{done, idle_turns}
use processkit_py.Runtime.Drive.{
  CompletionConverter, convert_completion, block_on, drive_async, drive_async_py_convert,
  drive_async-block_on,
}
use processkit_py.Runner.Verbs.{Reported, process_result, bytes_result, text, number}

-- The verbs of the crate's command, and of its pipeline, as `T`.
pub record CrateVerbs (T C S B : Type 0) : Type 0 where
  pub output_string : T → Result C S
  pub output_bytes : T → Result C B
  pub run : T → Result C Text
  pub exit_code : T → Result C ℕ
  pub probe : T → Result C ℕ

-- The verbs that pass the crate's result on; a `probe` gives 0 or 1 here.
pub data PassedVerb : Type 0 where
  output output_bytes run exit_code probe : PassedVerb

module _ {T C S B : Type 0} (map_err : C → PyErr) (crate : CrateVerbs T C S B) where
  future_of : PassedVerb → T → Result C (Reported S B (Unit {0}))
  future_of output t = map_ok process_result (crate.output_string t)
  future_of output_bytes t = map_ok bytes_result (crate.output_bytes t)
  future_of run t = map_ok text (crate.run t)
  future_of exit_code t = map_ok number (crate.exit_code t)
  future_of probe t = map_ok number (crate.probe t)

  -- A verb of a pipeline, whose future ends after `n` intervals of the poll for signals.
  unfoldable pub passed_sync :
      PassedVerb → ℕ → ℕ → Bool → ℕ → T → Option (Result PyErr (Reported S B (Unit {0})))
  unfolding block_on future_of
  passed_sync v me owner inside n t =
      block_on map_err me owner inside (idle_turns n ++ done (future_of v t) ∷ [])

  unfoldable pub passed_async :
      PassedVerb → (Reported S B (Unit {0}) → Result PyErr ℕ) → T → Result PyErr CompletionConverter
  unfolding drive_async future_of
  passed_async v into_py t = drive_async map_err into_py (future_of v t)

  -- In the process that owns the runtime, on a thread outside of it, a verb and its twin give Python the
  -- same object or exception.
  pub passed_async-twin :
      (v : PassedVerb) (into_py : Reported S B (Unit {0}) → Result PyErr ℕ) (owner n : ℕ) (t : T)
      → owner ≢ 0
      → Option.map (λ r. r >>= into_py) (passed_sync v owner owner false n t)
        ≡ some (passed_async v into_py t >>= convert_completion)
  unfolding passed_sync passed_async
  passed_async-twin v into_py owner n t owned =
      drive_async-block_on map_err into_py owner n (future_of v t) owned

-- The same verbs of a `Command`.
module _ {K C S B : Type 0} (map_err : C → PyErr) (crate : CrateVerbs K C S B) where
  unfoldable pub command_sync :
      PassedVerb → ℕ → ℕ → Bool → ℕ → Wrapped K → Option (Result PyErr (Reported S B (Unit {0})))
  unfolding passed_sync
  command_sync v me owner inside n c = passed_sync map_err crate v me owner inside n c.inner

  unfoldable pub command_async :
      PassedVerb
      → (Reported S B (Unit {0}) → Result PyErr ℕ)
      → Wrapped K
      → Result PyErr CompletionConverter
  unfolding passed_async
  command_async v into_py c = passed_async map_err crate v into_py c.inner

  -- `run_json`; `parse` is `parse_json`, with what it raises.
  unfoldable pub command_run_json :
      (K → Text)
      → (Text → Text → Result PyErr ℕ)
      → ℕ
      → ℕ
      → Bool
      → ℕ
      → Wrapped K
      → Option (Result PyErr ℕ)
  unfolding block_on
  command_run_json program parse me owner inside n c =
      Option.map (λ read. read >>= parse (program c.inner))
        (block_on map_err me owner inside (idle_turns n ++ done (crate.run c.inner) ∷ []))

  unfoldable pub command_arun_json :
      (K → Text) → (Text → Text → Result PyErr ℕ) → Wrapped K → Result PyErr CompletionConverter
  unfolding drive_async_py_convert
  command_arun_json program parse c =
      drive_async_py_convert (λ (p : Text × Text). parse p.0 p.1)
        (map_ok (λ read. (program c.inner, read)) (map_error map_err (crate.run c.inner)))

  json_of :
      (program : Text) (parse : Text → Text → Result PyErr ℕ) (r : Result C Text)
      → (drive_async map_err (parse program) r >>= convert_completion) ≡ (
          drive_async_py_convert
            (λ (p : Text × Text). parse p.0 p.1)
            (map_ok (λ read. (program, read)) (map_error map_err r))
          >>= convert_completion)
  unfolding drive_async drive_async_py_convert
  json_of program parse (ok output_text) = refl
  json_of program parse (err e) = refl

  -- In the process that owns the runtime, on a thread outside of it, `run_json` and its twin give Python
  -- the same value or exception.
  pub command_arun_json-twin :
      (program : K → Text) (parse : Text → Text → Result PyErr ℕ) (owner n : ℕ) (c : Wrapped K)
      → owner ≢ 0
      → command_run_json program parse owner owner false n c
        ≡ some (command_arun_json program parse c >>= convert_completion)
  unfolding command_run_json command_arun_json
  command_arun_json-twin program parse owner n c owned =
      drive_async-block_on map_err (parse (program c.inner)) owner n (crate.run c.inner) owned
      ∙ ap some (json_of (program c.inner) parse (crate.run c.inner))

-- `which`, and `resolve_program` of a command
unfoldable pub which : {C U : Type 0} → (C → PyErr) → (U → Text) → Result C U → Result PyErr Text
which map_err to_string_lossy found = map_error map_err (map_ok to_string_lossy found)
