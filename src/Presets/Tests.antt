-- ===== src/Presets/Tests.antt =====
-- src/convert.rs: the parsers on some arguments.
use processkit_py.Common.{◌≡◌, ◌↔◌, refl, ok, codes, text_eq, to_ascii_lowercase}
use processkit_py.Presets.{parse_restart_policy, on_crash, str}
use processkit_py.Presets.Signal.{unix, kill, parse_signal, Names, parse_signal_iff}

shouted_accepted : parse_restart_policy (codes "ON-Crash") ≡ ok on_crash
unfolding parse_restart_policy text_eq to_ascii_lowercase
shouted_accepted = refl

parse_signal_iff_example :
    (parse_signal (unix 64) (str (codes "SIGKILL")) ≡ ok kill)
    ↔ Names (unix 64) (str (codes "SIGKILL")) kill
parse_signal_iff_example = parse_signal_iff (unix 64) (str (codes "SIGKILL")) kill
