-- ===== src/Command/Settings.antt =====
-- src/command.rs, lines 175 to 1173 and 1340 to 1365, and src/convert.rs, lines 548 to 556: the
-- builders of `Command` that only change the crate's command. A family of neighbouring methods is one
-- data type, with a function that says what each does.
use processkit_py.Common.{
  ℕ, Bool, true, false, Option, none, some, List, [], ◌∷◌, Result, ok, err, ◌>>=◌, map_ok, ok_or,
  Text,
}
use processkit_py.Command.Tees.{Target, tee_sink}
use processkit_py.Crate.{CrateCommand, OpenOptions}
use processkit_py.Durations.{F64, positive_duration, nonnegative_duration, build_retry_policy}
use processkit_py.Encodings.{parse_encoding}
use processkit_py.Errors.{PyErr, value_error}
use processkit_py.Presets.{
  Arg, normalize_named_preset, parse_priority, parse_line_terminator, parse_io_priority,
  build_output_buffer_policy, parse_retry_if,
}
use processkit_py.Presets.Signal.{Platform, parse_signal}
use processkit_py.Sink.{PyInt}

pub data Argv : Type 0 where
  arg arg0 cwd prefer_local : Text → Argv
  args : List Text → Argv

pub data Environment : Type 0 where
  env : Text → Text → Environment
  envs : List (Text × Text) → Environment
  env_remove : Text → Environment
  env_clear : Environment
  inherit_env : List Text → Environment

pub data Input : Type 0 where
  stdin_bytes : List ℕ → Input
  stdin_text stdin_file : Text → Input
  keep_stdin_open : Input

pub data Deadline : Type 0 where
  timeout timeout_grace : F64 → Deadline
  timeout_signal : Arg → Deadline
  no_timeout : Deadline
  timeout_opt : Option F64 → Deadline
  cancel_on : ℕ → Deadline

pub data Outcome : Type 0 where
  success_codes : List PyInt → Outcome
  retry : Text → Option ℕ → Option F64 → Option F64 → Option F64 → Option Bool → Outcome
  retry_never : Outcome

pub data Decoding : Type 0 where
  encoding stdout_encoding stderr_encoding : Text → Decoding
  line_terminator stdout_line_terminator stderr_line_terminator : Text → Decoding
  sanitize_vt stdout_sanitize_vt stderr_sanitize_vt : Decoding

pub data Tee : Type 0 where
  stdout_tee stderr_tee stdout_raw_tee stderr_raw_tee : Target → Bool → Tee

pub data Observer : Type 0 where
  on_stdout_line on_stderr_line : ℕ → Observer

pub data Platforms : Type 0 where
  kill_on_parent_death create_no_window windows_graceful_ctrl_break : Platforms

pub data Privilege : Type 0 where
  uid gid umask : ℕ → Privilege
  groups cpu_affinity : List ℕ → Privilege
  setsid : Privilege
  rlimit : Text → ℕ → ℕ → Privilege
  priority : Text → Privilege
  io_priority : Text → Option Arg → Privilege
  output_limit : Option ℕ → Option ℕ → Text → Privilege

pub data PipeFlag : Type 0 where
  unchecked_in_pipe merge_stderr_in_pipe : PipeFlag

-- The machine that the extension is built for, and its file system.
pub record Machine : Type 0 where
  pub platform : Platform
  pub opens : Text → OpenOptions → Option PyErr

module _ {K Enc Lim : Type 0} (crate : CrateCommand K Enc Lim) where
  unfoldable pub set_argv : Argv → K → K
  set_argv (arg a) inner = crate.arg a inner
  set_argv (args a) inner = crate.args a inner
  set_argv (arg0 a) inner = crate.arg0 a inner
  set_argv (cwd path) inner = crate.current_dir path inner
  set_argv (prefer_local dir) inner = crate.prefer_local dir inner

  unfoldable pub set_environment : Environment → K → K
  set_environment (env key value) inner = crate.env key value inner
  set_environment (envs vars) inner = crate.envs vars inner
  set_environment (env_remove key) inner = crate.env_remove key inner
  set_environment env_clear inner = crate.env_clear inner
  set_environment (inherit_env names) inner = crate.inherit_env names inner

  unfoldable pub set_input : Input → K → K
  set_input (stdin_bytes data_) inner = crate.stdin_from_bytes data_ inner
  set_input (stdin_text text) inner = crate.stdin_from_string text inner
  set_input (stdin_file path) inner = crate.stdin_from_file path inner
  set_input keep_stdin_open inner = crate.keep_stdin_open inner

  -- The `match` of `timeout_opt`.
  optional_duration : Option F64 → Result PyErr (Option ℕ)
  optional_duration none = ok none
  optional_duration (some seconds) = map_ok some (positive_duration seconds)

  unfoldable pub set_deadline : Platform → Deadline → K → Result PyErr K
  unfolding optional_duration
  set_deadline platform (timeout seconds) inner =
      positive_duration seconds >>= λ duration. ok (crate.timeout duration inner)
  set_deadline platform (timeout_grace seconds) inner =
      nonnegative_duration seconds >>= λ grace. ok (crate.timeout_grace grace inner)
  set_deadline platform (timeout_signal name) inner =
      parse_signal platform name >>= λ signal. ok (crate.timeout_signal signal inner)
  set_deadline platform no_timeout inner = ok (crate.no_timeout inner)
  set_deadline platform (timeout_opt seconds) inner =
      optional_duration seconds >>= λ duration. ok (crate.timeout_opt duration inner)
  set_deadline platform (cancel_on token) inner = ok (crate.cancel_on token inner)

  unfoldable pub set_outcome : Outcome → K → Result PyErr K
  set_outcome (success_codes []) inner = err value_error
  set_outcome (success_codes (c ∷ more)) inner = ok (crate.ok_codes (c ∷ more) inner)
  set_outcome (retry retry_if max_retries initial multiplier max_backoff jitter) inner = do
    policy ←
        build_retry_policy crate.default_retry max_retries initial multiplier max_backoff jitter
    classifier ← parse_retry_if retry_if
    ok (crate.retry_with policy classifier inner)
  set_outcome retry_never inner = ok (crate.retry_never inner)

  unfoldable pub set_decoding : Decoding → K → Result PyErr K
  set_decoding (encoding label) inner =
      map_ok (λ e. crate.encoding e inner) (parse_encoding crate.encoding_for_label label)
  set_decoding (stdout_encoding label) inner =
      map_ok (λ e. crate.stdout_encoding e inner) (parse_encoding crate.encoding_for_label label)
  set_decoding (stderr_encoding label) inner =
      map_ok (λ e. crate.stderr_encoding e inner) (parse_encoding crate.encoding_for_label label)
  set_decoding (line_terminator mode) inner =
      map_ok (λ t. crate.line_terminator t inner) (parse_line_terminator mode)
  set_decoding (stdout_line_terminator mode) inner =
      map_ok (λ t. crate.stdout_line_terminator t inner) (parse_line_terminator mode)
  set_decoding (stderr_line_terminator mode) inner =
      map_ok (λ t. crate.stderr_line_terminator t inner) (parse_line_terminator mode)
  set_decoding sanitize_vt inner = ok (crate.sanitize_vt inner)
  set_decoding stdout_sanitize_vt inner = ok (crate.stdout_sanitize_vt inner)
  set_decoding stderr_sanitize_vt inner = ok (crate.stderr_sanitize_vt inner)

  unfoldable pub set_tee : (Text → OpenOptions → Option PyErr) → Tee → K → Result PyErr K
  unfolding tee_sink
  set_tee opens (stdout_tee target append) inner =
      map_ok (λ s. crate.stdout_tee s inner) (tee_sink opens false target append)
  set_tee opens (stderr_tee target append) inner =
      map_ok (λ s. crate.stderr_tee s inner) (tee_sink opens false target append)
  set_tee opens (stdout_raw_tee target append) inner =
      map_ok (λ s. crate.stdout_raw_tee s inner) (tee_sink opens true target append)
  set_tee opens (stderr_raw_tee target append) inner =
      map_ok (λ s. crate.stderr_raw_tee s inner) (tee_sink opens true target append)

  unfoldable pub set_observer : Observer → K → K
  set_observer (on_stdout_line callback) inner = crate.on_stdout_line callback inner
  set_observer (on_stderr_line callback) inner = crate.on_stderr_line callback inner

  unfoldable pub set_platform : Platforms → K → K
  set_platform kill_on_parent_death inner = crate.kill_on_parent_death inner
  set_platform create_no_window inner = crate.create_no_window inner
  set_platform windows_graceful_ctrl_break inner = crate.windows_graceful_ctrl_break inner

  unfoldable pub parse_rlimit_resource : Text → Result PyErr Lim
  unfolding normalize_named_preset
  parse_rlimit_resource resource =
      ok_or value_error (crate.limit_from_name (normalize_named_preset resource))

  unfoldable pub set_privilege : Privilege → K → Result PyErr K
  unfolding parse_rlimit_resource
  set_privilege (uid n) inner = ok (crate.uid n inner)
  set_privilege (gid n) inner = ok (crate.gid n inner)
  set_privilege (groups gids) inner = ok (crate.groups gids inner)
  set_privilege setsid inner = ok (crate.setsid inner)
  set_privilege (umask mask) inner = ok (crate.umask mask inner)
  set_privilege (rlimit resource soft hard) inner =
      map_ok (λ r. crate.rlimit r soft hard inner) (parse_rlimit_resource resource)
  set_privilege (priority level) inner = map_ok (λ p. crate.priority p inner) (parse_priority level)
  set_privilege (cpu_affinity cpus) inner = ok (crate.cpu_affinity cpus inner)
  set_privilege (io_priority class_name level) inner =
      map_ok (λ p. crate.io_priority p inner) (parse_io_priority class_name level)
  set_privilege (output_limit max_bytes max_lines on_overflow) inner =
      map_ok (λ p. crate.output_buffer p inner)
        (build_output_buffer_policy crate.default_buffer max_bytes max_lines on_overflow)

  unfoldable pub set_pipe_flag : PipeFlag → K → K
  set_pipe_flag unchecked_in_pipe inner = crate.unchecked_in_pipe inner
  set_pipe_flag merge_stderr_in_pipe inner = crate.merge_stderr_in_pipe inner
