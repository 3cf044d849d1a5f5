-- ===== src/Command/Tests.antt =====
-- Runs of src/command.rs on concrete chains of builder methods.
use processkit_py.Common.{
  ℕ, suc, ◌≡◌, ◌⊎◌, is_some, map_ok, refl, true, false, Option, none, some, List, [], ◌∷◌,
  unwrap_or, Result, ok, err, Text, codes,
}
use processkit_py.Crate.{CrateCommand}
use processkit_py.Durations.{F64, finite, RetryPolicy, positive_duration}
use processkit_py.Errors.{PyErr, value_error, unsupported}
use processkit_py.Presets.{OutputBufferPolicy, drop_oldest}
use processkit_py.Presets.Signal.{unix}
use processkit_py.Command.{Wrapped, new}
use processkit_py.Command.Settings.{Machine, no_timeout}
use processkit_py.Command.Methods.{
  Method, setting, deadline, inherit_stdin, idle_timeout, stdout, stderr_file, pty, chain,
}
use processkit_py.Command.Pty.{chain-implements}
use processkit_py.Command.History.{
  idle_after, terminal_after, stdin_after, stdout_after, stderr_after, final, chain-last_wins,
  chain-pty_alone,
}
use processkit_py.Command.Plan.{empty_plan, mask, represent, steps}
use processkit_py.Command.Verbs.{Started, start, spawn_detached, idle_timeout-carried}

-- A crate's command that keeps its program and its `arg0` only, and shows the latter.
record Fake : Type 0 where
  name : Text
  shown : Option Text

abbrev default_policy : RetryPolicy
default_policy = record {
  max_retries = 3;
  initial_backoff = 100000000;
  multiplier = finite false 2 1074;
  max_backoff = 30000000000;
  jitter = true;
}

abbrev default_buffer : Option ℕ → OutputBufferPolicy
default_buffer lines = record { max_bytes = none; max_lines = lines; overflow = drop_oldest }

abbrev fake : CrateCommand Fake Text Text
fake = record {
  fresh = λ p. record { name = p; shown = none };
  arg = λ a k. k;
  args = λ a k. k;
  arg0 = λ a k. record k { shown = some a };
  current_dir = λ a k. k;
  prefer_local = λ a k. k;
  env = λ a b k. k;
  envs = λ a k. k;
  env_remove = λ a k. k;
  env_clear = λ k. k;
  inherit_env = λ a k. k;
  stdin_from_bytes = λ a k. k;
  stdin_from_string = λ a k. k;
  stdin_from_file = λ a k. k;
  keep_stdin_open = λ k. k;
  inherit_stdin = λ k. k;
  timeout = λ a k. k;
  timeout_grace = λ a k. k;
  timeout_signal = λ a k. k;
  no_timeout = λ k. k;
  timeout_opt = λ a k. k;
  cancel_on = λ a k. k;
  ok_codes = λ a k. k;
  retry_with = λ a b k. k;
  retry_never = λ k. k;
  stdout = λ a k. k;
  stderr = λ a k. k;
  encoding = λ a k. k;
  stdout_encoding = λ a k. k;
  stderr_encoding = λ a k. k;
  line_terminator = λ a k. k;
  stdout_line_terminator = λ a k. k;
  stderr_line_terminator = λ a k. k;
  sanitize_vt = λ k. k;
  stdout_sanitize_vt = λ k. k;
  stderr_sanitize_vt = λ k. k;
  stdout_tee = λ a k. k;
  stderr_tee = λ a k. k;
  stdout_raw_tee = λ a k. k;
  stderr_raw_tee = λ a k. k;
  stdout_file = λ a k. k;
  stdout_file_append = λ a k. k;
  stderr_file = λ a k. k;
  stderr_file_append = λ a k. k;
  on_stdout_line = λ a k. k;
  on_stderr_line = λ a k. k;
  kill_on_parent_death = λ k. k;
  create_no_window = λ k. k;
  windows_graceful_ctrl_break = λ k. k;
  use_pty = λ k. k;
  pty_size = λ a b k. k;
  uid = λ a k. k;
  gid = λ a k. k;
  groups = λ a k. k;
  setsid = λ k. k;
  umask = λ a k. k;
  rlimit = λ a b c k. k;
  priority = λ a k. k;
  cpu_affinity = λ a k. k;
  io_priority = λ a k. k;
  output_buffer = λ a k. k;
  unchecked_in_pipe = λ k. k;
  merge_stderr_in_pipe = λ k. k;
  configured_arg0 = λ k. k.shown;
  program = λ k. k.name;
  debug = λ k. unwrap_or k.shown k.name;
  default_retry = default_policy;
  default_buffer = default_buffer;
  encoding_for_label = λ label. some label;
  limit_from_name = λ label. some label;
}

abbrev machine : Machine
machine = record { platform = unix 64; opens = λ path options. none }

abbrev program : Text
program = codes "tool"

-- One and a half seconds, and two.
abbrev short : F64
short = finite false 3 1073

abbrev long : F64
long = finite false 2 1074

-- An output that is sent away and back, and then a pseudo-terminal.
abbrev there_and_back : List Method
there_and_back =
    idle_timeout short
    ∷ stdout (codes "null")
    ∷ setting (deadline no_timeout)
    ∷ stdout (codes "PIPE")
    ∷ idle_timeout long
    ∷ pty (some 80) (some 24)
    ∷ []

abbrev made : Wrapped Fake
made = record {
  inner = record { name = program; shown = none };
  idle_timeout = some 2000000000;
  pty_requested = true;
  pty_conflicts = 0;
}

makes : chain fake machine there_and_back (new fake program none) ≡ ok made
unfolding chain new positive_duration
makes = refl

conflict_first :
    chain fake machine (inherit_stdin ∷ pty none none ∷ []) (new fake program none)
    ≡ err value_error
unfolding chain new
conflict_first = refl

conflict_last :
    chain fake machine (pty none none ∷ stderr_file program false ∷ []) (new fake program none)
    ≡ err value_error
unfolding chain new
conflict_last = refl

chain-implements_example :
    chain fake machine there_and_back (new fake program none)
    ≡ map_ok represent
        (steps fake machine there_and_back ((new fake program none).inner, empty_plan))
chain-implements_example = chain-implements fake machine there_and_back program none

chain-last_wins_example :
    (made.idle_timeout ≡ final idle_after there_and_back none)
    × (made.pty_requested ≡ final terminal_after there_and_back false)
    × (made.pty_conflicts
        ≡ mask
            (final stdin_after there_and_back false)
            (final stdout_after there_and_back false)
            (final stderr_after there_and_back false))
chain-last_wins_example = chain-last_wins fake machine there_and_back program none made makes

chain-pty_alone_example :
    (final stdin_after there_and_back false ≡ false)
    × (final stdout_after there_and_back false ≡ false)
    × (final stderr_after there_and_back false ≡ false)
chain-pty_alone_example = chain-pty_alone fake machine there_and_back program none made makes refl

-- The process is the number 7; a world counts the processes that were started in it.
abbrev spawns : Fake → Result PyErr ℕ
spawns k = ok 7

abbrev detaches : Fake → ℕ → ℕ × Result PyErr ℕ
detaches k n = (suc n, ok 7)

idle_timeout-carried_example :
    ((s : Started ℕ)
      → start fake spawns made ≡ ok s
      → s.idle ≡ final idle_after there_and_back none)
    × ((final idle_after there_and_back none ≡ none)
          × (spawn_detached fake detaches made 0 ≡ detaches made.inner 0)
        ⊎ (is_some (final idle_after there_and_back none) ≡ true)
          × (spawn_detached fake detaches made 0 ≡ (0, err unsupported)))
idle_timeout-carried_example =
    idle_timeout-carried fake machine there_and_back program none made spawns detaches 0 makes
