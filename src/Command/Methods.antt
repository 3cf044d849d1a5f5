-- ===== src/Command/Methods.antt =====
-- src/command.rs, lines 155 to 1173: the builder methods together, and chains of them.
use processkit_py.Common.{ℕ, Bool, Option, List, [], ◌∷◌, Result, ok, ◌>>=◌, Text}
use processkit_py.Crate.{CrateCommand}
use processkit_py.Command
use processkit_py.Command.{Wrapped, rewrap}
use processkit_py.Command.Settings.{
  Argv, Environment, Input, Deadline, Outcome, Decoding, Tee, Observer, Platforms, Privilege,
  PipeFlag, Machine, set_argv, set_environment, set_input, set_deadline, set_outcome, set_decoding,
  set_tee, set_observer, set_platform, set_privilege, set_pipe_flag,
}
use processkit_py.Durations.{F64}
use processkit_py.Errors.{PyErr}

-- The methods that change the crate's command alone.
pub data Setting : Type 0 where
  argv : Argv → Setting
  environment : Environment → Setting
  input : Input → Setting
  deadline : Deadline → Setting
  outcome : Outcome → Setting
  decoding : Decoding → Setting
  tee : Tee → Setting
  observer : Observer → Setting
  platforms : Platforms → Setting
  privilege : Privilege → Setting
  pipe_flag : PipeFlag → Setting

-- All of them, with the arguments that Python passes.
pub data Method : Type 0 where
  setting : Setting → Method
  inherit_stdin : Method
  idle_timeout : F64 → Method
  stdout stderr : Text → Method
  stdout_file stderr_file : Text → Bool → Method
  pty : Option ℕ → Option ℕ → Method

module _ {K Enc Lim : Type 0} (crate : CrateCommand K Enc Lim) (machine : Machine) where
  unfoldable pub set : Setting → K → Result PyErr K
  unfolding set_argv set_environment set_input set_deadline set_outcome set_decoding set_tee
      set_observer set_platform set_privilege set_pipe_flag
  set (argv s) inner = ok (set_argv crate s inner)
  set (environment s) inner = ok (set_environment crate s inner)
  set (input s) inner = ok (set_input crate s inner)
  set (deadline s) inner = set_deadline crate machine.platform s inner
  set (outcome s) inner = set_outcome crate s inner
  set (decoding s) inner = set_decoding crate s inner
  set (tee s) inner = set_tee crate machine.opens s inner
  set (observer s) inner = ok (set_observer crate s inner)
  set (platforms s) inner = ok (set_platform crate s inner)
  set (privilege s) inner = set_privilege crate s inner
  set (pipe_flag s) inner = ok (set_pipe_flag crate s inner)

  -- `self.rewrap(…)` around what a setting makes of the crate's command
  unfoldable pub configure : Setting → Wrapped K → Result PyErr (Wrapped K)
  unfolding set rewrap
  configure s c = set s c.inner >>= λ inner. ok (rewrap c inner)

  unfoldable pub call : Method → Wrapped K → Result PyErr (Wrapped K)
  unfolding configure Command.inherit_stdin Command.idle_timeout Command.stdout Command.stderr
      Command.stdout_file Command.stderr_file Command.pty
  call (setting s) c = configure s c
  call inherit_stdin c = Command.inherit_stdin crate c
  call (idle_timeout seconds) c = Command.idle_timeout seconds c
  call (stdout mode) c = Command.stdout crate mode c
  call (stderr mode) c = Command.stderr crate mode c
  call (stdout_file path append) c = Command.stdout_file crate path append c
  call (stderr_file path append) c = Command.stderr_file crate path append c
  call (pty cols rows) c = Command.pty crate cols rows c

  -- `command.a().b()…`, which the first exception ends
  unfoldable pub chain : List Method → Wrapped K → Result PyErr (Wrapped K)
  unfolding call
  chain [] c = ok c
  chain (m ∷ ms) c = call m c >>= λ c'. chain ms c'
