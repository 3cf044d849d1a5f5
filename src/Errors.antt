-- ===== src/Errors.antt =====
-- src/errors.rs: the exception classes that the extension raises, and Python's own that it uses.
-- An exception is modelled by its class; message texts are left out. `raised` is an exception that
-- Python code raised, by identity.
pub mod Mapping
pub mod Json
pub mod Classes
pub mod Synthesized
mod Tests
use processkit_py.Common.{ℕ}

pub data PyErr : Type 0 where
  process_error non_zero_exit signalled resource_limit unsupported output_too_large : PyErr
  cancelled_error idle_timeout invalid_json timeout process_not_found permission_denied : PyErr
  wait_timeout value_error type_error os_error stop_async_iteration rust_panic : PyErr
  raised : ℕ → PyErr
