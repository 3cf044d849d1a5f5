-- ===== src/Supervision/Setup/Checks.antt =====
-- src/supervisor.rs, lines 533 to 540 and 685 to 705: what a supervisor that was made is known to have.
use processkit_py.Common.{
  ℕ, ◌≡◌, refl, true, false, Bool-cases, Option, none, some, is_some, inl, inr, Result, ok, err,
  ◌>>=◌, map_ok, arith,
}
use processkit_py.Cli.Client.{RunnerObject}
use processkit_py.Durations.{F64, positive_duration, nonnegative_duration}
use processkit_py.Supervision.Setup.{
  Arguments, CrateSupervisor, Limits, Chosen, limits_given, optionally, choose_runner,
  set_threshold, set_capture, set_health_check, stop_condition_of, first_half, second_half, new,
}

-- What a step was given, if it and the rest raised nothing.
then_ok :
    {E A B : Type 0} (r : Result E A) (f : A → Result E B) (b : B)
    → (r >>= f) ≡ ok b
    → (a : A) × (r ≡ ok a) × (f a ≡ ok b)
then_ok (ok a) f b h = (a, refl, h)
then_ok (err e) f b h = let no_way : ⊥ = ground arith in elim no_way [ ]

module _ {S : Type 0} (crate : CrateSupervisor S) where
  choose_runner-exclusive :
      (r : Option RunnerObject) (l : Limits) (c : Chosen)
      → choose_runner crate r l ≡ ok c
      → is_some r ≡ true
      → limits_given l ≡ false
  unfolding choose_runner
  choose_runner-exclusive none l c h k = ground arith
  choose_runner-exclusive (some object) l c h k = elim (Bool-cases (limits_given l)) [
    | inl given ↦ let no_way : ⊥ = ground arith in elim no_way [ ]
    | inr absent ↦ absent
  ]

  set_health_check-paired :
      (callback : Option ℕ) (interval : Option F64) (failures : Option ℕ) (s t : S)
      → set_health_check crate callback interval failures s ≡ ok t
      → is_some callback ≡ is_some interval
  unfolding set_health_check
  set_health_check-paired (some c) (some x) failures s t h = refl
  set_health_check-paired (some c) none failures s t h = ground arith
  set_health_check-paired none (some x) failures s t h = ground arith
  set_health_check-paired none none failures s t h = refl

  second_half-checked :
      (a : Arguments) (s t : S)
      → second_half crate a s ≡ ok t
      → (u : S) × (set_health_check crate a.health_check a.health_check_interval
            a.health_check_failures u
          ≡ ok t)
  unfolding second_half
  second_half-checked a s t h =
      let r1 = then_ok (optionally a.give_up_when (λ n s. ok (crate.give_up_when n s)) s) _ t h in
      let r2 =
        then_ok
          (optionally a.storm_pause
            (λ x s. map_ok (λ d. crate.storm_pause d s) (positive_duration x)) r1.0)
          _ t r1.2 in
      let r3 = then_ok (optionally a.failure_threshold (set_threshold crate) r2.0) _ t r2.2 in
      let r4 =
        then_ok
          (optionally a.failure_decay
            (λ x s. map_ok (λ d. crate.failure_decay d s) (nonnegative_duration x)) r3.0)
          _ t r3.2 in
      let r5 =
        then_ok
          (set_capture crate a.capture_max_bytes a.capture_max_lines a.capture_on_overflow r4.0) _ t
          r4.2 in
      (r5.0, r5.2)

  -- A supervisor that was made has a runner of its own or limits, not both, and a health check exactly
  -- if it has an interval for it.
  pub new-checked :
      (fresh s : S) (a : Arguments)
      → new crate fresh a ≡ ok s
      → (is_some a.runner ≡ true → limits_given a.limits ≡ false)
        × (is_some a.health_check ≡ is_some a.health_check_interval)
  unfolding new
  new-checked fresh s a h =
      let r1 = then_ok (choose_runner crate a.runner a.limits) _ s h in
      let r2 = then_ok (first_half crate a fresh) _ s r1.2 in
      let r3 =
        then_ok (second_half crate a (crate.stop_when (stop_condition_of crate a.stop_when) r2.0)) _
          s r2.2 in
      let u =
        second_half-checked a (crate.stop_when (stop_condition_of crate a.stop_when) r2.0) r3.0
          r3.1 in
      (
        choose_runner-exclusive a.runner a.limits r1.0 r1.1,
        set_health_check-paired a.health_check a.health_check_interval a.health_check_failures u.0
            r3.0 u.1,
      )
