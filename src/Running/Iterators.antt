-- ===== src/Running/Iterators.antt =====
-- src/running.rs, lines 550 to 581, 830 to 980: the four iterators over a child's output, each as what
-- it takes from a wait.
use processkit_py.Common.{Bool, Option, none, some, List, Result, Text}
use processkit_py.Errors.{PyErr}
use processkit_py.Results.{ProcessEvent, stderr, OutputEvent, LifecycleEvent, lifecycle_event}
use processkit_py.Running.Idle.{Wait, anext}

-- A line of standard error; any other event only ends the window.
unfoldable pub stderr_line : {O : Type 0} → ProcessEvent O → Option Text
stderr_line (stderr line) = some line
stderr_line event = none

module _ {P : Type 0} (slot : Option P) where
  -- `StdoutLines`, whose waits give lines
  unfoldable pub stdout_lines_anext : Bool → List (Wait Text) → Option (Bool × Result PyErr Text)
  unfolding anext
  stdout_lines_anext guarded waits = anext slot (λ line. some line) guarded waits

  -- `OutputEvents`, whose waits are calls of `next_line`
  unfoldable pub output_events_anext :
      Bool → List (Wait OutputEvent) → Option (Bool × Result PyErr OutputEvent)
  unfolding anext
  output_events_anext guarded waits = anext slot (λ line. some line) guarded waits

module _ {P O : Type 0} (slot : Option P) where
  -- `StderrLines` and `LifecycleEvents`, whose waits are calls of `next_event`
  unfoldable pub stderr_lines_anext :
      Bool → List (Wait (ProcessEvent O)) → Option (Bool × Result PyErr Text)
  unfolding anext stderr_line
  stderr_lines_anext guarded waits = anext slot stderr_line guarded waits

  unfoldable pub lifecycle_events_anext :
      Bool → List (Wait (ProcessEvent O)) → Option (Bool × Result PyErr (LifecycleEvent O))
  unfolding anext lifecycle_event
  lifecycle_events_anext guarded waits =
      anext slot (λ event. some (lifecycle_event event)) guarded waits
