-- ===== src/Cli/Tests.antt =====
-- Runs of src/cli.rs with concrete resolvers.
use processkit_py.Common.{
  ℕ, suc, ◌≡◌, refl, true, false, none, some, List, [], ◌∷◌, Result, ok, err, Text, codes,
}
use processkit_py.Cli.{
  fails, resolves, Resolvers, finished, resolver, no_builds, build, build_command, client_verb,
}
use processkit_py.Cli.Client.{CrateClient, Defaults, scripted, new}
use processkit_py.Cli.Reentrancy.{
  first_failure, values, build_command-reentrant, client_verb-fail_closed,
}
use processkit_py.Durations.{RetryPolicy, finite, positive_duration}
use processkit_py.Errors.{PyErr, raised, value_error}
use processkit_py.Runner.Capture.{Future, ends, first_error}

-- A resolver that builds a command whose own resolver fails, and that ignores this.
abbrev careless : Resolvers
careless =
    resolver (build (resolver no_builds (λ errors. fails (raised 1)) finished) no_builds)
      (λ errors. resolves (codes "token")) finished

-- The same, after one that fails.
abbrev failing : Resolvers
failing = resolver no_builds (λ errors. fails (raised 2)) careless

abbrev apply : List Text → List Text
apply texts = texts

careless_builds : build_command apply careless none ≡ (none, ok (codes "token" ∷ []))
unfolding build_command
careless_builds = refl

failing_raises : build_command apply failing none ≡ (none, err (raised 2))
unfolding build_command
failing_raises = refl

build_command-reentrant_example : build_command apply failing (some (raised 7)) ≡ (
  some (raised 7),
  elim (first_failure failing) [ some e ↦ err e | none ↦ ok (apply (values failing)) ],
)
build_command-reentrant_example = build_command-reentrant apply failing (some (raised 7))

-- A world counts the runs.
abbrev runs : List Text → ℕ → ℕ × Future × Result PyErr ℕ
runs command n = (suc n, ends, ok 0)

client_verb-fail_closed_example :
    client_verb apply runs failing none [] 0 ≡ (elim (first_failure failing) [
      | some e ↦ (none, 0, [], err e)
      | none ↦
          let r = runs (apply (values failing)) 0 in
          (none, r.0, [], elim (first_error r.1) [ some e ↦ err e | none ↦ r.2 ])
    ])
client_verb-fail_closed_example = client_verb-fail_closed apply runs failing none [] 0

abbrev policy : RetryPolicy
policy = record {
  max_retries = 3;
  initial_backoff = 100000000;
  multiplier = finite false 2 1074;
  max_backoff = 30000000000;
  jitter = true;
}

-- A client that keeps its program only.
abbrev crate : CrateClient Text
crate = record {
  with_runner = λ program runner. program;
  default_timeout = λ duration c. c;
  default_env = λ key value c. c;
  default_env_remove = λ key c. c;
  default_env_fn = λ key callback c. c;
  default_cancel_on = λ token c. c;
  default_retry = λ p classifier c. c;
  default_policy = policy;
}

-- A knob of the retry policy without a condition.
abbrev untuned : Defaults
untuned = record {
  timeout = some (finite false 3 1073);
  env = [];
  env_remove = [];
  env_fn = [];
  retry_if = none;
  max_retries = some 5;
  initial_backoff = none;
  multiplier = none;
  max_backoff = none;
  jitter = none;
  cancel_on = none;
  runner = some (scripted 1);
}

untuned_refused : new crate 0 (codes "tool") untuned ≡ err value_error
unfolding new positive_duration
untuned_refused = refl
