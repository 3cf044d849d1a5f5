-- ===== src/Command/Plan.antt =====
-- src/command.rs, lines 33 to 46, 78 to 94 and 1006 to 1031: what a `Command` promises besides the
-- crate's command, without the mask of bits that the code keeps.
use processkit_py.Common.{
  ℕ, Bool, true, false, not, ◌&&◌, ◌||◌, Option, none, some, List, [], ◌∷◌, ltb, if◌then◌else◌,
  Result, ok, err, ◌>>=◌, map_ok,
}
use processkit_py.Crate.{CrateCommand}
use processkit_py.Command.{Wrapped, is_piped}
use processkit_py.Command.Settings.{Machine}
use processkit_py.Command.Methods.{
  Method, setting, inherit_stdin, idle_timeout, stdout, stderr, stdout_file, stderr_file, pty, set,
}
use processkit_py.Durations.{positive_duration}
use processkit_py.Errors.{PyErr, value_error}
use processkit_py.Presets.{parse_stdio_mode}

-- What a command promises besides the crate's command: the idle timeout, whether it wants a
-- pseudo-terminal, and which streams do not go through the crate.
pub record Plan : Type 0 where
  pub idle : Option ℕ
  pub terminal : Bool
  pub stdin_inherited : Bool
  pub stdout_redirected : Bool
  pub stderr_redirected : Bool

abbrev pub empty_plan : Plan
empty_plan = record {
  idle = none;
  terminal = false;
  stdin_inherited = false;
  stdout_redirected = false;
  stderr_redirected = false;
}

abbrev pub redirected : Plan → Bool
redirected v = v.stdin_inherited || v.stdout_redirected || v.stderr_redirected

unless : Bool → Plan → Result PyErr Plan
unless b v = if b then err value_error else ok v

both_positive : Option ℕ → Option ℕ → Bool
both_positive none none = true
both_positive (some cols) (some rows) = ltb 0 cols && ltb 0 rows
both_positive none (some rows) = false
both_positive (some cols) none = false

-- What a method does to the plan, or the exception that it raises for it.
unfoldable pub plan : Method → Plan → Result PyErr Plan
unfolding unless both_positive
plan (setting s) v = ok v
plan inherit_stdin v = unless v.terminal (record v { stdin_inherited = true })
plan (idle_timeout seconds) v = positive_duration seconds >>= λ d. ok (record v { idle = some d })
plan (stdout mode) v = parse_stdio_mode mode >>= λ parsed.
    unless (v.terminal && not (is_piped parsed))
      (record v { stdout_redirected = not (is_piped parsed) })
plan (stderr mode) v = parse_stdio_mode mode >>= λ parsed.
    unless (v.terminal && not (is_piped parsed))
      (record v { stderr_redirected = not (is_piped parsed) })
plan (stdout_file path append) v = unless v.terminal (record v { stdout_redirected = true })
plan (stderr_file path append) v = unless v.terminal (record v { stderr_redirected = true })
plan (pty cols rows) v =
    unless (redirected v || not (both_positive cols rows)) (record v { terminal = true })

-- The mask that stands for the three facts.
abbrev pub mask : Bool → Bool → Bool → ℕ
mask false false false = 0
mask true false false = 1
mask false true false = 2
mask true true false = 3
mask false false true = 4
mask true false true = 5
mask false true true = 6
mask true true true = 7

abbrev pub masked : Plan → ℕ
masked v = mask v.stdin_inherited v.stdout_redirected v.stderr_redirected

-- The `Command` that stands for a plan.
abbrev pub represent : {K : Type 0} → K × Plan → Wrapped K
represent (inner, v) = record {
  inner = inner;
  idle_timeout = v.idle;
  pty_requested = v.terminal;
  pty_conflicts = masked v;
}

module _ {K Enc Lim : Type 0} (crate : CrateCommand K Enc Lim) (machine : Machine) where
  abbrev terminal_size : Option ℕ → Option ℕ → K → K
  terminal_size (some cols) (some rows) inner = crate.pty_size cols rows inner
  terminal_size none rows inner = inner
  terminal_size (some cols) none inner = inner

  -- What a method makes of the crate's command.
  unfoldable pub build : Method → K → Result PyErr K
  unfolding set
  build (setting s) inner = set crate machine s inner
  build inherit_stdin inner = ok (crate.inherit_stdin inner)
  build (idle_timeout seconds) inner = ok inner
  build (stdout mode) inner = map_ok (λ parsed. crate.stdout parsed inner) (parse_stdio_mode mode)
  build (stderr mode) inner = map_ok (λ parsed. crate.stderr parsed inner) (parse_stdio_mode mode)
  build (stdout_file path append) inner =
      ok (if append then crate.stdout_file_append path inner else crate.stdout_file path inner)
  build (stderr_file path append) inner =
      ok (if append then crate.stderr_file_append path inner else crate.stderr_file path inner)
  build (pty cols rows) inner = ok (terminal_size cols rows (crate.use_pty inner))

  -- A method on the crate's command and the plan.
  unfoldable pub step : Method → K × Plan → Result PyErr (K × Plan)
  unfolding plan build
  step m (inner, v) = plan m v >>= λ v'. build m inner >>= λ inner'. ok (inner', v')

  unfoldable pub steps : List Method → K × Plan → Result PyErr (K × Plan)
  unfolding step
  steps [] s = ok s
  steps (m ∷ ms) s = step m s >>= λ s'. steps ms s'
