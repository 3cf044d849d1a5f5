-- ===== src/Command.antt =====
-- src/command.rs, lines 31 to 173, 317 to 393, 532 to 561, 843 to 879 and 1006 to 1031: the Python
-- `Command`, which wraps the crate's and adds the idle timeout and what a pseudo-terminal excludes.
pub mod Tees
pub mod Settings
pub mod Methods
pub mod Plan
pub mod Pty
pub mod History
pub mod Pipeline
pub mod Passed
pub mod Verbs
mod Tests
use Prim.Native.Nat.{bit_and, bit_or}
use processkit_py.Common.{
  ℕ, ◌-◌, Bool, true, false, not, ◌&&◌, Option, none, some, List, ltb, ◌==◌, if◌then◌else◌, Result,
  ok, err, ◌>>=◌, ◌>>◌, Text,
}
use processkit_py.Crate.{CrateCommand}
use processkit_py.Durations.{F64, positive_duration}
use processkit_py.Errors.{PyErr, value_error}
use processkit_py.Presets.{StdioMode, piped, parse_stdio_mode}

-- `PyCommand`; `pty_conflicts` is a `u8`.
pub record Wrapped (K : Type 0) : Type 0 where
  pub inner : K
  pub idle_timeout : Option ℕ
  pub pty_requested : Bool
  pub pty_conflicts : ℕ

abbrev pub pty_conflict_stdin : ℕ
pty_conflict_stdin = 1

abbrev pub pty_conflict_stdout : ℕ
pty_conflict_stdout = 2

abbrev pub pty_conflict_stderr : ℕ
pty_conflict_stderr = 4

-- `bits |= mask` and `bits &= !mask`, on a `u8`
unfoldable pub set_bits : ℕ → ℕ → ℕ
set_bits mask bits = bit_or bits mask

unfoldable pub clear_bits : ℕ → ℕ → ℕ
clear_bits mask bits = bit_and bits (255 - mask)

abbrev pub is_piped : StdioMode → Bool
is_piped piped = true
is_piped mode = false

module _ {K : Type 0} where
  unfoldable pub rewrap : Wrapped K → K → Wrapped K
  rewrap c inner = record {
    inner = inner;
    idle_timeout = c.idle_timeout;
    pty_requested = c.pty_requested;
    pty_conflicts = c.pty_conflicts;
  }

  unfoldable pub reject_pty_conflict : Wrapped K → Result PyErr (Unit {0})
  reject_pty_conflict c = if c.pty_requested then err value_error else ok tt

  set_conflict : ℕ → Wrapped K → Wrapped K
  unfolding set_bits
  set_conflict mask c = record c { pty_conflicts = set_bits mask c.pty_conflicts }

  clear_conflict : ℕ → Wrapped K → Wrapped K
  unfolding clear_bits
  clear_conflict mask c = record c { pty_conflicts = clear_bits mask c.pty_conflicts }

  unfoldable pub idle_timeout : F64 → Wrapped K → Result PyErr (Wrapped K)
  idle_timeout seconds c = do
    duration ← positive_duration seconds
    ok (record c { idle_timeout = some duration })

module _ {K Enc Lim : Type 0} (crate : CrateCommand K Enc Lim) where
  given_args : Option (List Text) → K → K
  given_args none inner = inner
  given_args (some args) inner = crate.args args inner

  -- `PyCommand::new`
  unfoldable pub new : Text → Option (List Text) → Wrapped K
  unfolding given_args
  new program args = record {
    inner = given_args args (crate.fresh program);
    idle_timeout = none;
    pty_requested = false;
    pty_conflicts = 0;
  }

  unfoldable pub inherit_stdin : Wrapped K → Result PyErr (Wrapped K)
  unfolding reject_pty_conflict rewrap set_conflict
  inherit_stdin c =
      reject_pty_conflict c
      >> ok (set_conflict pty_conflict_stdin (rewrap c (crate.inherit_stdin c.inner)))

  -- The body that `stdout` and `stderr` share, after the mode has been parsed.
  attach : ℕ → Bool → (K → K) → Wrapped K → Result PyErr (Wrapped K)
  unfolding reject_pty_conflict rewrap set_conflict clear_conflict
  attach mask pipes set c = do
    if c.pty_requested && not pipes then reject_pty_conflict c else ok tt
    let wrapped = rewrap c (set c.inner)
    ok (if pipes then clear_conflict mask wrapped else set_conflict mask wrapped)

  unfoldable pub stdout : Text → Wrapped K → Result PyErr (Wrapped K)
  unfolding parse_stdio_mode attach
  stdout mode c = do
    parsed ← parse_stdio_mode mode
    attach pty_conflict_stdout (is_piped parsed) (crate.stdout parsed) c

  unfoldable pub stderr : Text → Wrapped K → Result PyErr (Wrapped K)
  unfolding parse_stdio_mode attach
  stderr mode c = do
    parsed ← parse_stdio_mode mode
    attach pty_conflict_stderr (is_piped parsed) (crate.stderr parsed) c

  unfoldable pub stdout_file : Text → Bool → Wrapped K → Result PyErr (Wrapped K)
  unfolding reject_pty_conflict rewrap set_conflict
  stdout_file path append c =
      reject_pty_conflict c
      >> ok (
          set_conflict pty_conflict_stdout (
            rewrap c (
              if append
              then crate.stdout_file_append path c.inner
              else crate.stdout_file path c.inner)))

  unfoldable pub stderr_file : Text → Bool → Wrapped K → Result PyErr (Wrapped K)
  unfolding reject_pty_conflict rewrap set_conflict
  stderr_file path append c =
      reject_pty_conflict c
      >> ok (
          set_conflict pty_conflict_stderr (
            rewrap c (
              if append
              then crate.stderr_file_append path c.inner
              else crate.stderr_file path c.inner)))

  -- The `match` over the size: `None` is a missing one.
  sized : Option ℕ → Option ℕ → K → Result PyErr K
  sized none none inner = ok inner
  sized (some cols) (some rows) inner =
      if ltb 0 cols && ltb 0 rows then ok (crate.pty_size cols rows inner) else err value_error
  sized none (some rows) inner = err value_error
  sized (some cols) none inner = err value_error

  unfoldable pub pty : Option ℕ → Option ℕ → Wrapped K → Result PyErr (Wrapped K)
  unfolding rewrap sized
  pty cols rows c =
      if not (c.pty_conflicts == 0)
      then err value_error
      else sized cols rows (crate.use_pty c.inner) >>= λ inner.
          ok (record (rewrap c inner) { pty_requested = true })
