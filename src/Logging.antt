-- ===== src/Logging.antt =====
-- src/logging.rs: the bridge from the crate's tracing events to Python's logging. A value of a field is
-- the text that its `Debug` gives.
pub mod Rendered
mod Tests
use processkit_py.Common.{
  ℕ, Bool, true, false, Option, none, some, List, [], ◌∷◌, ◌++◌, if◌then◌else◌, Result, ok, err,
  Text, codes, text_eq,
}
use processkit_py.Errors.{PyErr}

pub data Level : Type 0 where
  error warn info debug trace : Level

-- The levels of Python's logging.
unfoldable pub level_number : Level → ℕ
level_number error = 40
level_number warn = 30
level_number info = 20
level_number debug = 10
level_number trace = 5

pub record Event : Type 0 where
  pub level : Level
  pub target : Text
  pub fields : List (Text × Text)

pub record EventFields : Type 0 where
  pub message : Text
  pub extra : List Text

unfoldable pub record_debug : Text → Text → EventFields → EventFields
record_debug name value f =
    if text_eq name (codes "message")
    then record f { message = f.message ++ value }
    else record f { extra = f.extra ++ (name ++ codes "=" ++ value) ∷ [] }

-- `event.record`: every field, in order.
unfoldable pub record_all : List (Text × Text) → EventFields → EventFields
unfolding record_debug
record_all [] f = f
record_all ((name, value) ∷ more) f = record_all more (record_debug name value f)

-- `extra.join(" ")`
unfoldable pub join : List Text → Text
join [] = []
join (t ∷ []) = t
join (t ∷ u ∷ ts) = t ++ codes " " ++ join (u ∷ ts)

unfoldable pub render : EventFields → Text
unfolding join
render f = elim (f.message) [
  | [] ↦ elim (f.extra) [ [] ↦ [] | e ∷ es ↦ join (e ∷ es) ]
  | c ∷ cs ↦ elim (f.extra) [ [] ↦ c ∷ cs | e ∷ es ↦ (c ∷ cs) ++ codes " " ++ join (e ∷ es) ]
]

-- What Python does with a record: the import of `logging`, `getLogger` and `log`.
pub record Python : Type 0 where
  pub imports : Result PyErr (Unit {0})
  pub get_logger : Text → Result PyErr (Unit {0})
  pub log : Result PyErr (Unit {0})

-- A call of `log`: the name of the logger, the level and the message.
pub record LogCall : Type 0 where
  pub target : Text
  pub level : ℕ
  pub message : Text

-- The call that is made, if it is, and what `forward` gives.
unfoldable pub forward : Python → LogCall → Option LogCall × Result PyErr (Unit {0})
forward python c = elim (python.imports) [
  | err e ↦ (none, err e)
  | ok u ↦ elim (python.get_logger c.target) [ err e ↦ (none, err e) | ok v ↦ (some c, python.log) ]
]

abbrev pub no_fields : EventFields
no_fields = record { message = []; extra = [] }

-- `attached` is whether the interpreter can be attached. What `forward` gives is dropped.
unfoldable pub on_event : Bool → Python → Event → Option LogCall
unfolding forward record_all render level_number
on_event false python e = none
on_event true python e =
    (forward python (record {
      target = e.target;
      level = level_number e.level;
      message = render (record_all e.fields no_fields);
    })).0

-- `INSTALLED`; `try_init` is what the installation of the subscriber would give, and the number counts
-- the installations that were tried.
unfoldable pub enable_logging : Bool → Option Bool × ℕ → (Option Bool × ℕ) × Bool
enable_logging try_init (some answer, tried) = ((some answer, tried), answer)
enable_logging try_init (none, tried) = ((some try_init, ℕ.suc tried), try_init)

unfoldable pub enable_all : List Bool → Option Bool × ℕ → (Option Bool × ℕ) × List Bool
unfolding enable_logging
enable_all [] s = (s, [])
enable_all (b ∷ bs) s =
    let (s', answer) = enable_logging b s in
    let (s'', answers) = enable_all bs s' in (s'', answer ∷ answers)
