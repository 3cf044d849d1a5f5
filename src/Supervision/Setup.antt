-- ===== src/Supervision/Setup.antt =====
-- src/supervisor.rs, lines 508 to 720: the constructor of `Supervisor`. Callbacks are numbers; the
-- crate's `Supervisor` is an interface, by its builders.
pub mod Checks
use processkit_py.Common.{
  ℕ, ◌*◌, ◌^◌, Bool, false, not, ◌||◌, Option, none, some, is_some, unwrap_or, ltb, if◌then◌else◌,
  Result, ok, err, ◌>>=◌, ◌>>◌, map_ok, Text, codes,
}
use processkit_py.Cli.Client.{RunnerObject, extract_runner}
use processkit_py.Durations.{
  F64, nan, infinity, finite, unit, is_finite, at_most_zero, positive_duration,
  nonnegative_duration,
}
use processkit_py.Errors.{PyErr, value_error}
use processkit_py.Presets.{
  RestartPolicy, OutputBufferPolicy, parse_restart_policy, build_output_buffer_policy,
}

-- `ProcessGroupOptions`, as far as limits are set.
pub record Limits : Type 0 where
  pub max_memory : Option ℕ
  pub max_processes : Option ℕ
  pub cpu_quota : Option F64

-- The runner of the incarnations: a given one, one with limits, or the plain one.
pub data Chosen : Type 0 where
  custom : ℕ → Chosen
  limited : Limits → Chosen
  plain : Chosen

-- The condition that stops the loop: the cell of the completed error, and the user's if there is one.
pub data StopCondition : Type 0 where
  completed_error : StopCondition
  completed_error_or : ℕ → StopCondition

pub record CrateSupervisor (S : Type 0) : Type 0 where
  pub restart : RestartPolicy → S → S
  pub max_restarts : ℕ → S → S
  pub backoff : ℕ → F64 → S → S
  pub max_backoff : ℕ → S → S
  pub jitter : Bool → S → S
  pub stop_when : StopCondition → S → S
  pub give_up_when : ℕ → S → S
  pub storm_pause : ℕ → S → S
  pub failure_threshold : F64 → S → S
  pub failure_decay : ℕ → S → S
  pub capture : OutputBufferPolicy → S → S
  pub health_check : ℕ → ℕ → S → S
  pub health_check_failures : ℕ → S → S
  pub with_runner : Chosen → S → S
  pub default_buffer : Option ℕ → OutputBufferPolicy
  pub probe_limits : Limits → Result PyErr (Unit {0})

pub record Arguments : Type 0 where
  pub restart : Option Text
  pub max_restarts : Option ℕ
  pub backoff_initial : Option F64
  pub backoff_factor : Option F64
  pub max_backoff : Option F64
  pub jitter : Option Bool
  pub stop_when : Option ℕ
  pub give_up_when : Option ℕ
  pub storm_pause : Option F64
  pub failure_threshold : Option F64
  pub failure_decay : Option F64
  pub capture_max_bytes : Option ℕ
  pub capture_max_lines : Option ℕ
  pub capture_on_overflow : Option Text
  pub health_check : Option ℕ
  pub health_check_interval : Option F64
  pub health_check_failures : Option ℕ
  pub limits : Limits
  pub runner : Option RunnerObject

-- `DEFAULT_BACKOFF_INITIAL` and `DEFAULT_BACKOFF_FACTOR`
abbrev pub default_backoff_initial : ℕ
default_backoff_initial = 200000000

abbrev pub default_backoff_factor : F64
default_backoff_factor = finite false 2 1074

-- `x < 1.0`
unfoldable pub below_one : F64 → Bool
unfolding unit
below_one nan = false
below_one (infinity negative) = negative
below_one (finite negative m e) = negative || ltb (m * 2 ^ e) unit

unfoldable pub limits_given : Limits → Bool
limits_given l = is_some l.max_memory || is_some l.max_processes || is_some l.cpu_quota

-- `if let Some(a) = ..`, around a step that may raise.
abbrev pub optionally : {A S : Type 0} → Option A → (A → S → Result PyErr S) → S → Result PyErr S
optionally none step s = ok s
optionally (some a) step s = step a s

module _ {S : Type 0} (crate : CrateSupervisor S) where
  limited_or_plain : Limits → Result PyErr Chosen
  unfolding limits_given
  limited_or_plain l = if limits_given l then crate.probe_limits l >> ok (limited l) else ok plain

  unfoldable pub choose_runner : Option RunnerObject → Limits → Result PyErr Chosen
  unfolding limits_given limited_or_plain extract_runner
  choose_runner (some object) l =
      if limits_given l then err value_error else map_ok custom (extract_runner object)
  choose_runner none l = limited_or_plain l

  initial_of : Option F64 → Result PyErr ℕ
  initial_of none = ok default_backoff_initial
  initial_of (some seconds) = positive_duration seconds

  unfoldable pub set_backoff : Option F64 → Option F64 → S → Result PyErr S
  unfolding initial_of is_finite below_one
  set_backoff none none s = ok s
  set_backoff initial factor s = do
    start ← initial_of initial
    let grows = unwrap_or factor default_backoff_factor
    if not (is_finite grows) || below_one grows
        then err value_error
        else ok (crate.backoff start grows s)

  unfoldable pub stop_condition_of : Option ℕ → StopCondition
  stop_condition_of none = completed_error
  stop_condition_of (some callback) = completed_error_or callback

  pub set_threshold : F64 → S → Result PyErr S
  unfolding is_finite at_most_zero
  set_threshold threshold s =
      if not (is_finite threshold) || at_most_zero threshold
      then err value_error
      else ok (crate.failure_threshold threshold s)

  unfoldable pub set_capture : Option ℕ → Option ℕ → Option Text → S → Result PyErr S
  set_capture none none none s = ok s
  set_capture bytes lines on_overflow s = do
    policy ←
        build_output_buffer_policy crate.default_buffer bytes lines
          (unwrap_or on_overflow (codes "drop_oldest"))
    ok (crate.capture policy s)

  set_failures : Option ℕ → S → S
  set_failures none s = s
  set_failures (some n) s = crate.health_check_failures n s

  unfoldable pub set_health_check : Option ℕ → Option F64 → Option ℕ → S → Result PyErr S
  unfolding set_failures
  set_health_check (some callback) (some seconds) failures s = do
    interval ← positive_duration seconds
    ok (set_failures failures (crate.health_check callback interval s))
  set_health_check (some callback) none failures s = err value_error
  set_health_check none (some seconds) failures s = err value_error
  set_health_check none none failures s = ok s

  -- The steps up to the stop condition, and those after it.
  unfoldable pub first_half : Arguments → S → Result PyErr S
  unfolding set_backoff
  first_half a s = do
    s1 ← optionally a.restart (λ t s. map_ok (λ p. crate.restart p s) (parse_restart_policy t)) s
    s2 ← optionally a.max_restarts (λ n s. ok (crate.max_restarts n s)) s1
    s3 ← set_backoff a.backoff_initial a.backoff_factor s2
    s4 ←
        optionally a.max_backoff (λ x s. map_ok (λ d. crate.max_backoff d s) (positive_duration x))
          s3
    optionally a.jitter (λ b s. ok (crate.jitter b s)) s4

  unfoldable pub second_half : Arguments → S → Result PyErr S
  unfolding set_threshold set_capture set_health_check
  second_half a s = do
    s1 ← optionally a.give_up_when (λ n s. ok (crate.give_up_when n s)) s
    s2 ←
        optionally a.storm_pause (λ x s. map_ok (λ d. crate.storm_pause d s) (positive_duration x))
          s1
    s3 ← optionally a.failure_threshold set_threshold s2
    s4 ←
        optionally a.failure_decay
          (λ x s. map_ok (λ d. crate.failure_decay d s) (nonnegative_duration x)) s3
    s5 ← set_capture a.capture_max_bytes a.capture_max_lines a.capture_on_overflow s4
    set_health_check a.health_check a.health_check_interval a.health_check_failures s5

  -- `fresh` is the crate's supervisor of the command.
  unfoldable pub new : S → Arguments → Result PyErr S
  unfolding choose_runner first_half stop_condition_of second_half
  new fresh a = do
    runner ← choose_runner a.runner a.limits
    s1 ← first_half a fresh
    s2 ← second_half a (crate.stop_when (stop_condition_of a.stop_when) s1)
    ok (crate.with_runner runner s2)
