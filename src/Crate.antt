-- ===== src/Crate.antt =====
-- What src/command.rs takes from the `processkit` crate: its `Command`, as an interface.
use processkit_py.Common.{ℕ, Bool, Option, List, Text}
use processkit_py.Durations.{RetryPolicy}
use processkit_py.Presets.{
  StdioMode, Priority, LineTerminator, IoPriority, OutputBufferPolicy, Classified,
}
use processkit_py.Presets.Signal.{Signal}
use processkit_py.Sink.{PyInt}

-- `std::fs::OpenOptions`, as `open_tee_sink` fills them in.
pub record OpenOptions : Type 0 where
  pub write : Bool
  pub create : Bool
  pub truncate : Bool
  pub append : Bool

-- What a tee writes to: a `PyWriterSink` over a Python object, or a file that has been opened.
pub data TeeSink : Type 0 where
  python_writer : Bool → ℕ → TeeSink
  file : Text → OpenOptions → TeeSink

-- The crate's `Command` `K`: its builders, by name, and the getters. `Enc` is its encodings, `Lim` its
-- resource limits.
pub record CrateCommand (K Enc Lim : Type 0) : Type 0 where
  pub fresh : Text → K
  pub arg : Text → K → K
  pub args : List Text → K → K
  pub arg0 : Text → K → K
  pub current_dir : Text → K → K
  pub prefer_local : Text → K → K
  pub env : Text → Text → K → K
  pub envs : List (Text × Text) → K → K
  pub env_remove : Text → K → K
  pub env_clear : K → K
  pub inherit_env : List Text → K → K
  pub stdin_from_bytes : List ℕ → K → K
  pub stdin_from_string : Text → K → K
  pub stdin_from_file : Text → K → K
  pub keep_stdin_open : K → K
  pub inherit_stdin : K → K
  pub timeout : ℕ → K → K
  pub timeout_grace : ℕ → K → K
  pub timeout_signal : Signal → K → K
  pub no_timeout : K → K
  pub timeout_opt : Option ℕ → K → K
  pub cancel_on : ℕ → K → K
  pub ok_codes : List PyInt → K → K
  pub retry_with : RetryPolicy → (Classified → Bool) → K → K
  pub retry_never : K → K
  pub stdout : StdioMode → K → K
  pub stderr : StdioMode → K → K
  pub encoding : Enc → K → K
  pub stdout_encoding : Enc → K → K
  pub stderr_encoding : Enc → K → K
  pub line_terminator : LineTerminator → K → K
  pub stdout_line_terminator : LineTerminator → K → K
  pub stderr_line_terminator : LineTerminator → K → K
  pub sanitize_vt : K → K
  pub stdout_sanitize_vt : K → K
  pub stderr_sanitize_vt : K → K
  pub stdout_tee : TeeSink → K → K
  pub stderr_tee : TeeSink → K → K
  pub stdout_raw_tee : TeeSink → K → K
  pub stderr_raw_tee : TeeSink → K → K
  pub stdout_file : Text → K → K
  pub stdout_file_append : Text → K → K
  pub stderr_file : Text → K → K
  pub stderr_file_append : Text → K → K
  pub on_stdout_line : ℕ → K → K
  pub on_stderr_line : ℕ → K → K
  pub kill_on_parent_death : K → K
  pub create_no_window : K → K
  pub windows_graceful_ctrl_break : K → K
  pub use_pty : K → K
  pub pty_size : ℕ → ℕ → K → K
  pub uid : ℕ → K → K
  pub gid : ℕ → K → K
  pub groups : List ℕ → K → K
  pub setsid : K → K
  pub umask : ℕ → K → K
  pub rlimit : Lim → ℕ → ℕ → K → K
  pub priority : Priority → K → K
  pub cpu_affinity : List ℕ → K → K
  pub io_priority : IoPriority → K → K
  pub output_buffer : OutputBufferPolicy → K → K
  pub unchecked_in_pipe : K → K
  pub merge_stderr_in_pipe : K → K
  pub configured_arg0 : K → Option Text
  pub program : K → Text
  pub debug : K → Text
  pub default_retry : RetryPolicy
  pub default_buffer : Option ℕ → OutputBufferPolicy
  pub encoding_for_label : Text → Option Enc
  pub limit_from_name : Text → Option Lim
