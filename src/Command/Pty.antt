-- ===== src/Command/Pty.antt =====
-- src/command.rs, lines 33 to 46, 78 to 94 and 1006 to 1031: the mask of what a pseudo-terminal
-- excludes, over chains of builder methods.
use processkit_py.Common.{
  ◌≡◌, refl, Bool, true, false, not, ◌||◌, Result-cases, Option, List, [], ◌∷◌, ◌==◌, inl, inr, ok,
  map_ok, arith, Text,
}
use processkit_py.Crate.{CrateCommand}
use processkit_py.Command.{new, set_bits, clear_bits}
use processkit_py.Command.Settings.{Machine}
use processkit_py.Command.Methods.{
  Method, setting, inherit_stdin, idle_timeout, stdout, stderr, stdout_file, stderr_file, pty, set,
  configure, call, chain,
}
use processkit_py.Command.Plan.{Plan, empty_plan, mask, step, steps, represent}
use processkit_py.Durations.{positive_duration}
use processkit_py.Presets.{StdioMode, piped, inherit, null, parse_stdio_mode}

by_cases :
    (P : Bool → Bool → Bool → Type 0)
    → P false false false
    → P true false false
    → P false true false
    → P true true false
    → P false false true
    → P true false true
    → P false true true
    → P true true true
    → (a b c : Bool) → P a b c
by_cases P p0 p1 p2 p3 p4 p5 p6 p7 false false false = p0
by_cases P p0 p1 p2 p3 p4 p5 p6 p7 true false false = p1
by_cases P p0 p1 p2 p3 p4 p5 p6 p7 false true false = p2
by_cases P p0 p1 p2 p3 p4 p5 p6 p7 true true false = p3
by_cases P p0 p1 p2 p3 p4 p5 p6 p7 false false true = p4
by_cases P p0 p1 p2 p3 p4 p5 p6 p7 true false true = p5
by_cases P p0 p1 p2 p3 p4 p5 p6 p7 false true true = p6
by_cases P p0 p1 p2 p3 p4 p5 p6 p7 true true true = p7

set-stdin : (a b c : Bool) → set_bits 1 (mask a b c) ≡ mask true b c
unfolding set_bits
set-stdin =
    by_cases (λ a b c. set_bits 1 (mask a b c) ≡ mask true b c) refl refl refl refl refl refl refl
      refl

set-stdout : (a b c : Bool) → set_bits 2 (mask a b c) ≡ mask a true c
unfolding set_bits
set-stdout =
    by_cases (λ a b c. set_bits 2 (mask a b c) ≡ mask a true c) refl refl refl refl refl refl refl
      refl

set-stderr : (a b c : Bool) → set_bits 4 (mask a b c) ≡ mask a b true
unfolding set_bits
set-stderr =
    by_cases (λ a b c. set_bits 4 (mask a b c) ≡ mask a b true) refl refl refl refl refl refl refl
      refl

clear-stdout : (a b c : Bool) → clear_bits 2 (mask a b c) ≡ mask a false c
unfolding clear_bits
clear-stdout =
    by_cases (λ a b c. clear_bits 2 (mask a b c) ≡ mask a false c) refl refl refl refl refl refl
      refl refl

clear-stderr : (a b c : Bool) → clear_bits 4 (mask a b c) ≡ mask a b false
unfolding clear_bits
clear-stderr =
    by_cases (λ a b c. clear_bits 4 (mask a b c) ≡ mask a b false) refl refl refl refl refl refl
      refl refl

mask_empty : (a b c : Bool) → (mask a b c == 0) ≡ not (a || b || c)
mask_empty =
    by_cases (λ a b c. (mask a b c == 0) ≡ not (a || b || c)) refl refl refl refl refl refl refl
      refl

module _ {K Enc Lim : Type 0} (crate : CrateCommand K Enc Lim) (machine : Machine) where
  attached_stdout :
      (mode : Text) (parsed : (p : StdioMode) × (parse_stdio_mode mode ≡ ok p)) (k : K) (v : Plan)
      → call crate machine (stdout mode) (represent (k, v))
        ≡ map_ok represent (step crate machine (stdout mode) (k, v))
  unfolding call step
  attached_stdout mode (piped, h) k v =
      ground (arith, h, clear-stdout v.stdin_inherited v.stdout_redirected v.stderr_redirected)
  attached_stdout mode (inherit, h) k v =
      ground (arith, h, set-stdout v.stdin_inherited v.stdout_redirected v.stderr_redirected)
  attached_stdout mode (null, h) k v =
      ground (arith, h, set-stdout v.stdin_inherited v.stdout_redirected v.stderr_redirected)

  attached_stderr :
      (mode : Text) (parsed : (p : StdioMode) × (parse_stdio_mode mode ≡ ok p)) (k : K) (v : Plan)
      → call crate machine (stderr mode) (represent (k, v))
        ≡ map_ok represent (step crate machine (stderr mode) (k, v))
  unfolding call step
  attached_stderr mode (piped, h) k v =
      ground (arith, h, clear-stderr v.stdin_inherited v.stdout_redirected v.stderr_redirected)
  attached_stderr mode (inherit, h) k v =
      ground (arith, h, set-stderr v.stdin_inherited v.stdout_redirected v.stderr_redirected)
  attached_stderr mode (null, h) k v =
      ground (arith, h, set-stderr v.stdin_inherited v.stdout_redirected v.stderr_redirected)

  call-represent :
      (m : Method) (s : K × Plan)
      → call crate machine m (represent s) ≡ map_ok represent (step crate machine m s)
  unfolding call step configure
  call-represent (setting t) (k, v) = elim (Result-cases (set crate machine t k)) [
    | inl e ↦ ground arith
    | inr k' ↦ ground arith
  ]
  call-represent inherit_stdin (k, v) =
      ground (arith, set-stdin v.stdin_inherited v.stdout_redirected v.stderr_redirected)
  call-represent (idle_timeout seconds) (k, v) = elim (Result-cases (positive_duration seconds)) [
    | inl e ↦ ground arith
    | inr d ↦ ground arith
  ]
  call-represent (stdout mode) (k, v) = elim (Result-cases (parse_stdio_mode mode)) [
    | inl e ↦ ground arith
    | inr parsed ↦ attached_stdout mode parsed k v
  ]
  call-represent (stderr mode) (k, v) = elim (Result-cases (parse_stdio_mode mode)) [
    | inl e ↦ ground arith
    | inr parsed ↦ attached_stderr mode parsed k v
  ]
  call-represent (stdout_file path append) (k, v) =
      ground (arith, set-stdout v.stdin_inherited v.stdout_redirected v.stderr_redirected)
  call-represent (stderr_file path append) (k, v) =
      ground (arith, set-stderr v.stdin_inherited v.stdout_redirected v.stderr_redirected)
  call-represent (pty cols rows) (k, v) =
      ground (arith, mask_empty v.stdin_inherited v.stdout_redirected v.stderr_redirected)

  chain-represent :
      (ms : List Method) (s : K × Plan)
      → chain crate machine ms (represent s) ≡ map_ok represent (steps crate machine ms s)
  unfolding chain steps
  chain-represent [] s = refl
  chain-represent (m ∷ ms) s = elim (Result-cases (step crate machine m s)) [
    | inl e ↦ ground (arith, call-represent m s)
    | inr s' ↦ ground (arith, call-represent m s, chain-represent ms s'.0)
  ]

  -- A chain of builder methods on a new `Command` does to the crate's command, to the idle timeout and
  -- to the mask of bits what the methods do one after the other to the crate's command and to a plain
  -- record of which streams do not go through the crate; it raises the exception that they raise.
  pub chain-implements :
      (ms : List Method) (program : Text) (args : Option (List Text))
      → chain crate machine ms (new crate program args)
        ≡ map_ok represent (steps crate machine ms ((new crate program args).inner, empty_plan))
  unfolding new
  chain-implements ms program args = chain-represent ms ((new crate program args).inner, empty_plan)
