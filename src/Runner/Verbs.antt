-- ===== src/Runner/Verbs.antt =====
-- src/runner.rs, lines 317 to 441 and 639 to 772: the run verbs that the real runner, the doubles and the
-- process group share. The runner is the crate's: for a command, the future of its verb, with what the
-- future gives, its errors mapped.
use processkit_py.Common.{ℕ, ◌≡◌, Result, ok, map_ok, arith, Text, Option-cases, inl, inr}
use processkit_py.Crate.{CrateCommand}
use processkit_py.Command.{Wrapped}
use processkit_py.Command.Verbs.{Started}
use processkit_py.Errors.{PyErr}
use processkit_py.Running.{started}
use processkit_py.Runner.{Sinks}
use processkit_py.Runner.Capture.{
  Future, first_error, with_when_capture, with_when_capture-raises_first,
}

-- `ProcessRunner`: `output_string`, `output_bytes`, `run`, `exit_code`, `probe`, `start`, for results
-- `S`, `B` and processes `P` of the crate.
pub record ProcessRunner (K S B P : Type 0) : Type 0 where
  pub output_string : K → Future × Result PyErr S
  pub output_bytes : K → Future × Result PyErr B
  pub run : K → Future × Result PyErr Text
  pub exit_code : K → Future × Result PyErr ℕ
  pub probe : K → Future × Result PyErr ℕ
  pub start : K → Future × Result PyErr P

module _ {A V : Type 0} where
  -- `with_when_capture_sync(future).map(wrap)`
  unfoldable pub captured_sync : (A → V) → Future × Result PyErr A → Sinks → Sinks × Result PyErr V
  unfolding with_when_capture
  captured_sync wrap r sinks =
      let (sinks', result) = with_when_capture r.0 r.1 sinks in (sinks', map_ok wrap result)

  -- `with_when_capture_async` of a future that wraps its result itself
  unfoldable pub captured_async : (A → V) → Future × Result PyErr A → Sinks → Sinks × Result PyErr V
  unfolding with_when_capture
  captured_async wrap r sinks = with_when_capture r.0 (map_ok wrap r.1) sinks

  -- Wrapping inside the scope or outside of it makes no difference.
  pub captured-twin :
      (wrap : A → V) (r : Future × Result PyErr A) (sinks : Sinks)
      → captured_async wrap r sinks ≡ captured_sync wrap r sinks
  unfolding captured_sync captured_async
  captured-twin wrap r sinks = elim (Option-cases (first_error r.0)) [
    | inl calm ↦ ground (
      arith,
      calm,
      with_when_capture-raises_first r.0 r.1 sinks,
      with_when_capture-raises_first r.0 (map_ok wrap r.1) sinks,
    )
    | inr (e, failed) ↦ ground (
      arith,
      failed,
      with_when_capture-raises_first r.0 r.1 sinks,
      with_when_capture-raises_first r.0 (map_ok wrap r.1) sinks,
    )
  ]

-- The run verbs, by name; `Output` and `Bytes` are the wrappers `PyProcessResult` and `PyBytesResult`.
pub data Verb : Type 0 where
  output output_bytes run exit_code probe start : Verb

pub data Reported (S B P : Type 0) : Type 0 where
  process_result : S → Reported S B P
  bytes_result : B → Reported S B P
  text : Text → Reported S B P
  number : ℕ → Reported S B P
  running_process : Started P → Reported S B P

module _ {K Enc Lim S B P : Type 0} (crate : CrateCommand K Enc Lim)
    (runner : ProcessRunner K S B P) where
  -- `PyRunningProcess::started`, with the idle timeout and the program of the command.
  handle_for : Wrapped K → P → Reported S B P
  unfolding started
  handle_for c p =
      running_process
        (record { handle = started p; idle = c.idle_timeout; program = crate.program c.inner })

  -- `runner_output` and its siblings
  unfoldable pub runner_verb : Verb → Wrapped K → Sinks → Sinks × Result PyErr (Reported S B P)
  unfolding captured_sync handle_for
  runner_verb output c sinks = captured_sync process_result (runner.output_string c.inner) sinks
  runner_verb output_bytes c sinks = captured_sync bytes_result (runner.output_bytes c.inner) sinks
  runner_verb run c sinks = captured_sync text (runner.run c.inner) sinks
  runner_verb exit_code c sinks = captured_sync number (runner.exit_code c.inner) sinks
  runner_verb probe c sinks = captured_sync number (runner.probe c.inner) sinks
  runner_verb start c sinks = captured_sync (handle_for c) (runner.start c.inner) sinks

  -- `runner_aoutput` and its siblings, in the task that runs them
  unfoldable pub runner_averb : Verb → Wrapped K → Sinks → Sinks × Result PyErr (Reported S B P)
  unfolding captured_async handle_for
  runner_averb output c sinks = captured_async process_result (runner.output_string c.inner) sinks
  runner_averb output_bytes c sinks =
      captured_async bytes_result (runner.output_bytes c.inner) sinks
  runner_averb run c sinks = captured_async text (runner.run c.inner) sinks
  runner_averb exit_code c sinks = captured_async number (runner.exit_code c.inner) sinks
  runner_averb probe c sinks = captured_async number (runner.probe c.inner) sinks
  runner_averb start c sinks = captured_async (handle_for c) (runner.start c.inner) sinks

  -- A verb and its twin give the same, and a process that either starts has the idle timeout and the
  -- program of its command.
  pub runner_averb-twin :
      (v : Verb) (c : Wrapped K) (sinks : Sinks)
      → (runner_averb v c sinks ≡ runner_verb v c sinks)
        × ((s : Started P)
            → (runner_verb start c sinks).1 ≡ ok (running_process s)
            → (s.idle ≡ c.idle_timeout) × (s.program ≡ crate.program c.inner))
  unfolding runner_verb runner_averb captured_sync
  runner_averb-twin v c sinks = (twin v, λ s gives. ground (arith, gives))
    where
      twin : (u : Verb) → runner_averb u c sinks ≡ runner_verb u c sinks
      twin output = captured-twin process_result (runner.output_string c.inner) sinks
      twin output_bytes = captured-twin bytes_result (runner.output_bytes c.inner) sinks
      twin run = captured-twin text (runner.run c.inner) sinks
      twin exit_code = captured-twin number (runner.exit_code c.inner) sinks
      twin probe = captured-twin number (runner.probe c.inner) sinks
      twin start = captured-twin (handle_for c) (runner.start c.inner) sinks
