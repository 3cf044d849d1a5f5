-- ===== src/Cli/Client/Accepts.antt =====
-- src/cli.rs, lines 277 to 384: what the constructor of `CliClient` accepts.
use processkit_py.Common.{
  ℕ, ◌≡◌, ◌∙◌, ap, refl, Bool, true, false, not, ◌&&◌, Bool-cases, Result-cases, Option, none, some,
  List, [], ◌∷◌, inl, inr, Result, ok, err, ◌>>=◌, arith, Text,
}
use processkit_py.Cli.Client.{
  RunnerObject, runner, scripted, recording, record_replay, dry_run, other, CrateClient, Resolver,
  Defaults, check_callable, choose_runner, tuned, set_timeout, set_cancel, set_retry,
  set_environment, new,
}
use processkit_py.Durations.{F64, RetryPolicy, positive_duration, build_retry_policy}
use processkit_py.Presets.{parse_retry_if}

abbrev pub is_ok : {E A : Type 0} → Result E A → Bool
is_ok (ok a) = true
is_ok (err e) = false

abbrev pub all_callable : List Resolver → Bool
all_callable [] = true
all_callable (r ∷ more) = r.callable && all_callable more

abbrev pub known : Option RunnerObject → Bool
known none = true
known (some other) = false
known (some object) = true

abbrev pub timeout_accepted : Option F64 → Bool
timeout_accepted none = true
timeout_accepted (some seconds) = is_ok (positive_duration seconds)

-- Without a retry condition no knob may be given; with one, it and the knobs must be valid.
abbrev pub retry_accepted : RetryPolicy → Defaults → Option Text → Bool
retry_accepted fresh d none = not (tuned d)
retry_accepted fresh d (some retry_if) =
    is_ok
      (build_retry_policy fresh d.max_retries d.initial_backoff d.multiplier d.max_backoff d.jitter)
    && is_ok (parse_retry_if retry_if)

check_callable-ok : (rs : List Resolver) → is_ok (check_callable rs) ≡ all_callable rs
unfolding check_callable
check_callable-ok [] = refl
check_callable-ok (r ∷ more) = ground (arith, check_callable-ok more)

choose_runner-ok : (n : ℕ) (o : Option RunnerObject) → is_ok (choose_runner n o) ≡ known o
unfolding choose_runner
choose_runner-ok n none = refl
choose_runner-ok n (some (runner r)) = refl
choose_runner-ok n (some (scripted r)) = refl
choose_runner-ok n (some (recording r)) = refl
choose_runner-ok n (some (record_replay r)) = refl
choose_runner-ok n (some (dry_run r)) = refl
choose_runner-ok n (some other) = refl

then_ok :
    {E A B : Type 0} (r : Result E A) (f : A → Result E B) (b : Bool)
    → ((a : A) → is_ok (f a) ≡ b)
    → is_ok (r >>= f) ≡ (is_ok r && b)
then_ok (ok a) f b h = h a
then_ok (err e) f b h = refl

then_last : {E A B : Type 0} (r : Result E A) (f : A → B) → is_ok (r >>= λ a. ok (f a)) ≡ is_ok r
then_last (ok a) f = refl
then_last (err e) f = refl

-- The same, with what is known of the first result.
then_known :
    {E A B : Type 0} (r : Result E A) (f : A → Result E B) (a b : Bool)
    → is_ok r ≡ a
    → ((x : A) → is_ok (f x) ≡ b)
    → is_ok (r >>= f) ≡ (a && b)
then_known r f a b h k = then_ok r f b k ∙ ap (λ x. x && b) h

module _ {C : Type 0} (crate : CrateClient C) where
  set_timeout-ok :
      (t : Option F64) (client : C) → is_ok (set_timeout crate t client) ≡ timeout_accepted t
  unfolding set_timeout
  set_timeout-ok none client = refl
  set_timeout-ok (some seconds) client = elim (Result-cases (positive_duration seconds)) [
    | inl e ↦ ground arith
    | inr d ↦ ground arith
  ]

  set_retry-ok :
      (d : Defaults) (r : Option Text) (client : C)
      → is_ok (set_retry crate d r client) ≡ retry_accepted crate.default_policy d r
  unfolding set_retry
  set_retry-ok d none client = elim (Bool-cases (tuned d)) [
    | inl t ↦ ground arith
    | inr f ↦ ground arith
  ]
  set_retry-ok d (some retry_if) client =
      let policy =
        build_retry_policy crate.default_policy d.max_retries d.initial_backoff d.multiplier
          d.max_backoff d.jitter in
      let classifier = parse_retry_if retry_if in
      then_ok policy _ (is_ok classifier) λ p. then_last classifier _

  -- The constructor of `CliClient` succeeds exactly if every resolver is callable, the runner, if one
  -- is given, is of one of the five classes, the timeout, if one is given, is a valid duration, and the
  -- retry condition and the knobs are valid, where no knob may be given without a condition.
  pub new_iff :
      (job_runner : ℕ) (program : Text) (d : Defaults)
      → is_ok (new crate job_runner program d) ≡ (
          all_callable d.env_fn
          && (known d.runner
              && (timeout_accepted d.timeout && retry_accepted crate.default_policy d d.retry_if)))
  unfolding new
  new_iff job_runner program d =
      let retries = retry_accepted crate.default_policy d d.retry_if in
      then_known (check_callable d.env_fn) _ (all_callable d.env_fn)
        (known d.runner && (timeout_accepted d.timeout && retries)) (check_callable-ok d.env_fn)
        λ checked.
          then_known (choose_runner job_runner d.runner) _ (known d.runner)
            (timeout_accepted d.timeout && retries) (choose_runner-ok job_runner d.runner)
            λ chosen.
              let first = crate.with_runner program chosen in
              then_known (set_timeout crate d.timeout first) _ (timeout_accepted d.timeout) retries
                (set_timeout-ok d.timeout first)
                λ client.
                  set_retry-ok d d.retry_if
                    (set_cancel crate d.cancel_on (set_environment crate d client))
