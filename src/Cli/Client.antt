-- ===== src/Cli/Client.antt =====
-- src/cli.rs, lines 56 to 68, 243 to 410 and 490 to 505, and src/runner.rs, lines 610 to 637: the
-- constructor of `CliClient`, the call that a verb is given, and the commands that it hands out.
pub mod Accepts
use processkit_py.Common.{
  ℕ, Bool, false, ◌||◌, Option, none, some, is_some, List, [], ◌∷◌, if◌then◌else◌, Result, ok, err,
  ◌>>=◌, ◌>>◌, map_ok, Text,
}
use processkit_py.Cli.{Resolvers, Slot, build_command}
use processkit_py.Command.{Wrapped}
use processkit_py.Durations.{F64, RetryPolicy, positive_duration, build_retry_policy}
use processkit_py.Errors.{PyErr, value_error, type_error}
use processkit_py.Presets.{Classified, parse_retry_if}

-- An object that is given as a runner: one of the five classes, with its runner, or anything else.
pub data RunnerObject : Type 0 where
  runner scripted recording record_replay dry_run : ℕ → RunnerObject
  other : RunnerObject

unfoldable pub extract_runner : RunnerObject → Result PyErr ℕ
extract_runner (runner r) = ok r
extract_runner (scripted r) = ok r
extract_runner (recording r) = ok r
extract_runner (record_replay r) = ok r
extract_runner (dry_run r) = ok r
extract_runner other = err type_error

-- `ClientCall`: the arguments, or a command of the crate.
pub data ClientCall (K : Type 0) : Type 0 where
  args : List Text → ClientCall K
  cmd : K → ClientCall K

-- The object that a verb is given: a `Command`, which may be borrowed elsewhere, or something that
-- arguments are extracted from.
pub data CallObject (K : Type 0) : Type 0 where
  command : Result PyErr (Wrapped K) → CallObject K
  sequence : Result PyErr (List Text) → CallObject K

unfoldable pub from_py : {K : Type 0} → CallObject K → Result PyErr (ClientCall K)
from_py (command borrowed) = map_ok (λ c. cmd c.inner) borrowed
from_py (sequence extracted) = map_ok args extracted

-- The crate's `CliClient` `C`, by its builders.
pub record CrateClient (C : Type 0) : Type 0 where
  pub with_runner : Text → ℕ → C
  pub default_timeout : ℕ → C → C
  pub default_env : Text → Text → C → C
  pub default_env_remove : Text → C → C
  pub default_env_fn : Text → ℕ → C → C
  pub default_cancel_on : ℕ → C → C
  pub default_retry : RetryPolicy → (Classified → Bool) → C → C
  pub default_policy : RetryPolicy

-- A value of `default_env_fn`: the callback, and whether it is callable.
pub record Resolver : Type 0 where
  pub key : Text
  pub callback : ℕ
  pub callable : Bool

-- The keyword arguments of the constructor; an absent list is an empty one.
pub record Defaults : Type 0 where
  pub timeout : Option F64
  pub env : List (Text × Text)
  pub env_remove : List Text
  pub env_fn : List Resolver
  pub retry_if : Option Text
  pub max_retries : Option ℕ
  pub initial_backoff : Option F64
  pub multiplier : Option F64
  pub max_backoff : Option F64
  pub jitter : Option Bool
  pub cancel_on : Option ℕ
  pub runner : Option RunnerObject

unfoldable pub check_callable : List Resolver → Result PyErr (Unit {0})
check_callable [] = ok tt
check_callable (r ∷ more) = if r.callable then check_callable more else err type_error

-- `job_runner` is `JobRunner::new()`.
unfoldable pub choose_runner : ℕ → Option RunnerObject → Result PyErr ℕ
unfolding extract_runner
choose_runner job_runner none = ok job_runner
choose_runner job_runner (some object) = extract_runner object

-- Whether a knob of the retry policy is given.
unfoldable pub tuned : Defaults → Bool
tuned d =
    is_some d.max_retries
    || is_some d.initial_backoff
    || is_some d.multiplier
    || is_some d.max_backoff
    || is_some d.jitter

each : {A C : Type 0} → (A → C → C) → List A → C → C
each f [] client = client
each f (a ∷ more) client = each f more (f a client)

module _ {C : Type 0} (crate : CrateClient C) where
  unfoldable pub set_timeout : Option F64 → C → Result PyErr C
  set_timeout none client = ok client
  set_timeout (some seconds) client =
      map_ok (λ duration. crate.default_timeout duration client) (positive_duration seconds)

  unfoldable pub set_cancel : Option ℕ → C → C
  set_cancel none client = client
  set_cancel (some token) client = crate.default_cancel_on token client

  unfoldable pub set_retry : Defaults → Option Text → C → Result PyErr C
  unfolding tuned
  set_retry d (some retry_if) client = do
    policy ←
        build_retry_policy crate.default_policy d.max_retries d.initial_backoff d.multiplier
          d.max_backoff d.jitter
    classifier ← parse_retry_if retry_if
    ok (crate.default_retry policy classifier client)
  set_retry d none client = if tuned d then err value_error else ok client

  unfoldable pub set_environment : Defaults → C → C
  unfolding each
  set_environment d client =
      each (λ r. crate.default_env_fn r.key r.callback) d.env_fn
        (each crate.default_env_remove d.env_remove
          (each (λ v. crate.default_env v.0 v.1) d.env client))

  unfoldable pub new : ℕ → Text → Defaults → Result PyErr C
  unfolding check_callable choose_runner set_timeout set_environment set_cancel set_retry
  new job_runner program d = do
    check_callable d.env_fn
    chosen ← choose_runner job_runner d.runner
    client ← set_timeout d.timeout (crate.with_runner program chosen)
    set_retry d d.retry_if (set_cancel d.cancel_on (set_environment d client))

-- `CliClient.command`
unfoldable pub client_command :
    {K : Type 0} → (List Text → K) → Resolvers → Slot → Slot × Result PyErr (Wrapped K)
unfolding build_command
client_command apply resolvers slot =
    let b = build_command apply resolvers slot in
    (
      b.0,
      map_ok
          (λ inner. record {
            inner = inner;
            idle_timeout = none;
            pty_requested = false;
            pty_conflicts = 0;
          })
          b.1,
    )

-- `CliClient.resolve_program`; `find` is what the crate's command resolves to, with the error mapped.
unfoldable pub resolve_program :
    {K : Type 0}
    → (List Text → K)
    → (K → Result PyErr Text)
    → Resolvers
    → Slot
    → Slot × Result PyErr Text
unfolding build_command
resolve_program apply find resolvers slot =
    let b = build_command apply resolvers slot in (b.0, b.1 >>= find)
