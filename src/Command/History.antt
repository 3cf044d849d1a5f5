-- ===== src/Command/History.antt =====
-- src/command.rs, lines 78 to 94 and 317 to 1031: which of the earlier builder methods a `Command`
-- still shows.
use processkit_py.Common.{
  ℕ, ◌≡◌, ◌∙◌, ap, refl, subst, Bool, true, false, not, Result-cases, Option, none, some, List, [],
  ◌∷◌, ◌||◌, inl, inr, ok, err, arith, Text,
}
use processkit_py.Crate.{CrateCommand}
use processkit_py.Command.{Wrapped, is_piped, new}
use processkit_py.Command.Settings.{Machine}
use processkit_py.Command.Methods.{
  Method, setting, inherit_stdin, idle_timeout, stdout, stderr, stdout_file, stderr_file, pty,
  chain,
}
use processkit_py.Command.Plan.{
  Plan, empty_plan, redirected, mask, masked, plan, build, step, steps, represent,
}
use processkit_py.Command.Pty.{chain-implements}
use processkit_py.Durations.{positive_duration}
use processkit_py.Presets.{parse_stdio_mode}

-- What one method writes to an aspect of the command that was `old`; most write nothing.
abbrev pub idle_after : Method → Option ℕ → Option ℕ
idle_after (idle_timeout seconds) old = elim (positive_duration seconds) [
  | ok d ↦ some d
  | err e ↦ old
]
idle_after m old = old

abbrev pub terminal_after : Method → Bool → Bool
terminal_after (pty cols rows) old = true
terminal_after m old = old

abbrev pub stdin_after : Method → Bool → Bool
stdin_after inherit_stdin old = true
stdin_after m old = old

abbrev redirects : Text → Bool → Bool
redirects mode old = elim (parse_stdio_mode mode) [
  | ok parsed ↦ not (is_piped parsed)
  | err e ↦ old
]

abbrev pub stdout_after : Method → Bool → Bool
stdout_after (stdout mode) old = redirects mode old
stdout_after (stdout_file path append) old = true
stdout_after m old = old

abbrev pub stderr_after : Method → Bool → Bool
stderr_after (stderr mode) old = redirects mode old
stderr_after (stderr_file path append) old = true
stderr_after m old = old

-- An aspect after all of a chain, the first method first.
abbrev pub final : {A : Type 0} → (Method → A → A) → List Method → A → A
final f [] a = a
final f (m ∷ ms) a = final f ms (f m a)

-- The plan in which every aspect is what the last method that writes it has written.
abbrev after : Method → Plan → Plan
after m v = record {
  idle = idle_after m v.idle;
  terminal = terminal_after m v.terminal;
  stdin_inherited = stdin_after m v.stdin_inherited;
  stdout_redirected = stdout_after m v.stdout_redirected;
  stderr_redirected = stderr_after m v.stderr_redirected;
}

-- A pseudo-terminal and a stream that goes elsewhere exclude each other.
Alone : Plan → Type 0
Alone v = v.terminal ≡ true → redirected v ≡ false

plan-after : (m : Method) (v v' : Plan) → plan m v ≡ ok v' → v' ≡ after m v
unfolding plan
plan-after (setting t) v v' h = ground arith
plan-after inherit_stdin v v' h = ground arith
plan-after (idle_timeout seconds) v v' h = elim (Result-cases (positive_duration seconds)) [
  | inl e ↦ ground arith
  | inr d ↦ ground arith
]
plan-after (stdout mode) v v' h = elim (Result-cases (parse_stdio_mode mode)) [
  | inl e ↦ ground arith
  | inr d ↦ ground arith
]
plan-after (stderr mode) v v' h = elim (Result-cases (parse_stdio_mode mode)) [
  | inl e ↦ ground arith
  | inr d ↦ ground arith
]
plan-after (stdout_file path append) v v' h = ground arith
plan-after (stderr_file path append) v v' h = ground arith
plan-after (pty cols rows) v v' h = ground arith

plan-Alone : (m : Method) (v v' : Plan) → Alone v → plan m v ≡ ok v' → Alone v'
unfolding plan Alone
plan-Alone (setting t) v v' a h = ground arith
plan-Alone inherit_stdin v v' a h = ground arith
plan-Alone (idle_timeout seconds) v v' a h = elim (Result-cases (positive_duration seconds)) [
  | inl e ↦ ground arith
  | inr d ↦ ground arith
]
plan-Alone (stdout mode) v v' a h = elim (Result-cases (parse_stdio_mode mode)) [
  | inl e ↦ ground arith
  | inr d ↦ ground arith
]
plan-Alone (stderr mode) v v' a h = elim (Result-cases (parse_stdio_mode mode)) [
  | inl e ↦ ground arith
  | inr d ↦ ground arith
]
plan-Alone (stdout_file path append) v v' a h = ground arith
plan-Alone (stderr_file path append) v v' a h = ground arith
plan-Alone (pty cols rows) v v' a h = ground arith

empty-Alone : Alone empty_plan
unfolding Alone
empty-Alone h = refl

or_false : (a b c : Bool) → (a || b || c) ≡ false → (a ≡ false) × (b ≡ false) × (c ≡ false)
or_false false false false h = (refl, refl, refl)
or_false true b c h = cc
or_false false true c h = cc
or_false false false true h = cc

abbrev final_plan : List Method → Plan → Plan
final_plan ms v = record {
  idle = final idle_after ms v.idle;
  terminal = final terminal_after ms v.terminal;
  stdin_inherited = final stdin_after ms v.stdin_inherited;
  stdout_redirected = final stdout_after ms v.stdout_redirected;
  stderr_redirected = final stderr_after ms v.stderr_redirected;
}

module _ {K Enc Lim : Type 0} (crate : CrateCommand K Enc Lim) (machine : Machine) where
  step-plan : (m : Method) (s s' : K × Plan) → step crate machine m s ≡ ok s' → plan m s.1 ≡ ok s'.1
  unfolding step
  step-plan m (k, v) s' h = elim (Result-cases (plan m v)) [
    | inl e ↦ ground arith
    | inr v' ↦ elim (Result-cases (build crate machine m k)) [
      | inl e ↦ ground arith
      | inr k' ↦ ground arith
    ]
  ]

  steps-plan :
      (ms : List Method) (s s' : K × Plan)
      → Alone s.1
      → steps crate machine ms s ≡ ok s'
      → (s'.1 ≡ final_plan ms s.1) × Alone s'.1
  unfolding steps
  steps-plan [] s s' a h = (ground arith, ground arith)
  steps-plan (m ∷ ms) s s' a h = elim (Result-cases (step crate machine m s)) [
    | inl e ↦ ground arith
    | inr r ↦
        let p = step-plan m s r.0 r.1 in
        let q = plan-after m s.1 r.0.1 p in
        let rest = steps-plan ms r.0 s' (plan-Alone m s.1 r.0.1 a p) (ground arith) in
        (rest.0 ∙ ap (final_plan ms) q, rest.1)
  ]

  represented :
      (ms : List Method) (program : Text) (args : Option (List Text)) (c : Wrapped K)
      → chain crate machine ms (new crate program args) ≡ ok c
      → (s : K × Plan) × (c ≡ represent s) × (s.1 ≡ final_plan ms empty_plan) × Alone s.1
  represented ms program args c h =
      let start : K × Plan = ((new crate program args).inner, empty_plan) in
      elim (Result-cases (steps crate machine ms start)) [
        | inl e ↦ ground (arith, chain-implements crate machine ms program args)
        | inr s ↦
            let kept = steps-plan ms start s.0 empty-Alone s.1 in
            (s.0, ground (arith, chain-implements crate machine ms program args), kept.0, kept.1)
      ]

  -- If a chain of builder methods on a new `Command` raises nothing, the idle timeout is the last one
  -- that was set, a pseudo-terminal is wanted if one was asked for, and the mask has the bit of an
  -- output exactly if the last method that sent that output somewhere did not send it through a pipe,
  -- and the bit of the input exactly if it was ever inherited. No other method changes any of these.
  pub chain-last_wins :
      (ms : List Method) (program : Text) (args : Option (List Text)) (c : Wrapped K)
      → chain crate machine ms (new crate program args) ≡ ok c
      → (c.idle_timeout ≡ final idle_after ms none)
        × (c.pty_requested ≡ final terminal_after ms false)
        × (c.pty_conflicts
            ≡ mask
                (final stdin_after ms false)
                (final stdout_after ms false)
                (final stderr_after ms false))
  chain-last_wins ms program args c h =
      let r = represented ms program args c h in
      (
        ap (λ w. w.idle_timeout) r.1 ∙ ap (λ v. v.idle) r.2,
        ap (λ w. w.pty_requested) r.1 ∙ ap (λ v. v.terminal) r.2,
        ap (λ w. w.pty_conflicts) r.1 ∙ ap masked r.2,
      )

  -- If a chain of builder methods on a new `Command` raises nothing and asks for a pseudo-terminal
  -- somewhere, then, in whatever order its methods come, it nowhere inherits the input, and of each
  -- output the last method that sends it somewhere, if there is one, sends it through a pipe.
  pub chain-pty_alone :
      (ms : List Method) (program : Text) (args : Option (List Text)) (c : Wrapped K)
      → chain crate machine ms (new crate program args) ≡ ok c
      → final terminal_after ms false ≡ true
      → (final stdin_after ms false ≡ false)
        × (final stdout_after ms false ≡ false)
        × (final stderr_after ms false ≡ false)
  unfolding Alone
  chain-pty_alone ms program args c h asked =
      let r = represented ms program args c h in
      let alone : redirected (final_plan ms empty_plan) ≡ false = subst Alone r.2 r.3 asked in
      or_false (final stdin_after ms false) (final stdout_after ms false)
        (final stderr_after ms false) alone
