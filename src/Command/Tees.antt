-- ===== src/Command/Tees.antt =====
-- src/convert.rs, lines 52 to 102, and src/command.rs, lines 119 to 131 and 717 to 806: the sink that
-- a tee of a `Command` writes to.
use processkit_py.Common.{
  ℕ, Bool, true, false, not, Option, none, some, if◌then◌else◌, Result, ok, err, ◌>>=◌, ◌>>◌, Text,
}
use processkit_py.Crate.{OpenOptions, TeeSink, python_writer, file}
use processkit_py.Errors.{PyErr, value_error}

-- What `getattr("write")` gives: an attribute, callable or not; an `AttributeError`; another error.
pub data Attribute : Type 0 where
  attribute : Bool → Attribute
  missing : Attribute
  broken : PyErr → Attribute

-- The object that a tee is given, and what extracting a path from it gives.
pub record Target : Type 0 where
  pub object : ℕ
  pub write : Attribute
  pub path : Result PyErr Text

unfoldable pub is_python_writer : Attribute → Result PyErr Bool
is_python_writer (attribute callable) = ok callable
is_python_writer missing = ok false
is_python_writer (broken e) = err e

unfoldable pub reject_append_for_writer : Bool → Result PyErr (Unit {0})
reject_append_for_writer append = if append then err value_error else ok tt

unfoldable pub options_for : Bool → OpenOptions
options_for append = record { write = true; create = true; truncate = not append; append = append }

-- `opens` is what the system says to the opening of a path: nothing, or an `OSError`.
opened : Option PyErr → TeeSink → Result PyErr TeeSink
opened none sink = ok sink
opened (some e) sink = err e

unfoldable pub open_tee_sink :
    (Text → OpenOptions → Option PyErr) → Text → Bool → Result PyErr TeeSink
unfolding opened options_for
open_tee_sink opens path append =
    let options = options_for append in opened (opens path options) (file path options)

-- The sink that the four tees share: `raw` distinguishes `new_raw` from `new`.
unfoldable pub tee_sink :
    (Text → OpenOptions → Option PyErr) → Bool → Target → Bool → Result PyErr TeeSink
unfolding is_python_writer reject_append_for_writer open_tee_sink
tee_sink opens raw target append = do
  writer ← is_python_writer target.write
  if writer
      then reject_append_for_writer append >> ok (python_writer raw target.object)
      else target.path >>= λ path. open_tee_sink opens path append
