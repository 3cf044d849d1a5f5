-- ===== src/Logging/Rendered.antt =====
-- src/logging.rs: the message that a record of Python's logging has.
use processkit_py.Common.{
  ℕ, ◌≡◌, ◌∙◌, ap, refl, Bool, true, none, some, List, [], ◌∷◌, ◌++◌, if◌then◌else◌, ok, Text,
  codes, text_eq, arith, Bool-cases, inl, inr, Result-cases, replicate, length,
}
use mathlib.Core.List.{append_assoc, append-nil}
use processkit_py.Logging.{
  Event, level_number, record_debug, record_all, join, render, Python, LogCall, forward, on_event,
  enable_logging, enable_all,
}

-- The fields called `message`, run together.
abbrev pub messages : List (Text × Text) → Text
messages [] = []
messages ((name, value) ∷ more) =
    if text_eq name (codes "message") then value ++ messages more else messages more

-- The other fields, as `name=value`, in order.
abbrev pub others : List (Text × Text) → List Text
others [] = []
others ((name, value) ∷ more) =
    if text_eq name (codes "message")
    then others more
    else (name ++ codes "=" ++ value) ∷ others more

-- A text, unless it is empty, in front of a list.
abbrev pub unless_empty : Text → List Text → List Text
unless_empty [] ts = ts
unless_empty (c ∷ cs) ts = (c ∷ cs) ∷ ts

record_all-lem :
    (fields : List (Text × Text)) (message : Text) (extra : List Text)
    → record_all fields (record { message = message; extra = extra })
      ≡ record { message = message ++ messages fields; extra = extra ++ others fields }
unfolding record_all record_debug
record_all-lem [] message extra = rw (append-nil message, append-nil extra) refl
record_all-lem ((name, value) ∷ more) message extra =
    elim (Bool-cases (text_eq name (codes "message"))) [
      | inl same ↦ rw same (
          record_all-lem more (message ++ value) extra
          ∙ rw (append_assoc message value (messages more)) refl)
      | inr other ↦
          let t = name ++ codes "=" ++ value in
          rw other (
            record_all-lem more message (extra ++ t ∷ [])
            ∙ rw (append_assoc extra (t ∷ []) (others more)) refl)
    ]

render-join :
    (message : Text) (extra : List Text)
    → render (record { message = message; extra = extra }) ≡ join (unless_empty message extra)
unfolding render join
render-join [] [] = refl
render-join [] (e ∷ es) = refl
render-join (c ∷ cs) [] = refl
render-join (c ∷ cs) (e ∷ es) = refl

-- What an event becomes in Python's logging.
abbrev pub logged : Event → LogCall
logged e = record {
  target = e.target;
  level = level_number e.level;
  message = join (unless_empty (messages e.fields) (others e.fields));
}

-- An event makes at most one call of Python's `log`, with the event's target as the logger, the number of
-- its level, and as the message the `message` fields, if they are not empty, and then the other fields
-- as `name=value` in order, with one space between any two; it makes the call whenever the
-- interpreter can be attached, `logging` can be imported and gives the logger.
pub on_event-logged :
    (attached : Bool) (python : Python) (e : Event)
    → ((c : LogCall) → on_event attached python e ≡ some c → c ≡ logged e)
      × (attached ≡ true
          → python.imports ≡ ok tt
          → python.get_logger e.target ≡ ok tt
          → on_event attached python e ≡ some (logged e))
unfolding on_event forward
on_event-logged attached python e =
    let recorded = record_all-lem e.fields [] [] in
    let joined = render-join (messages e.fields) (others e.fields) in
    (
      λ c calls. elim (Bool-cases attached) [
        | inl on ↦ elim (Result-cases python.imports) [
          | inl (x, failed) ↦ ground (arith, on, failed)
          | inr (u, imports) ↦ elim (Result-cases (python.get_logger e.target)) [
            | inl (x, failed) ↦ ground (arith, on, imports, failed)
            | inr (v, logger) ↦ ground (arith, on, imports, logger, recorded, joined)
          ]
        ]
        | inr off ↦ ground (arith, off)
      ],
      λ on imports logger. ground (arith, on, imports, logger, recorded, joined),
    )

enable_all-decided :
    (b : Bool) (n : ℕ) (bs : List Bool)
    → enable_all bs (some b, n) ≡ ((some b, n), replicate (length bs) b)
unfolding enable_all enable_logging
enable_all-decided b n [] = refl
enable_all-decided b n (c ∷ bs) = ap (λ r. (r.0, b ∷ r.1)) (enable_all-decided b n bs)

-- The first call of `enable_logging` decides: every call returns what the installation gave then,
-- whatever it would give later, and it is tried once.
pub enable_all-first :
    (b : Bool) (bs : List Bool) (tried : ℕ)
    → enable_all (b ∷ bs) (none, tried) ≡ ((some b, ℕ.suc tried), replicate (length (b ∷ bs)) b)
unfolding enable_all enable_logging
enable_all-first b bs tried = ap (λ r. (r.0, b ∷ r.1)) (enable_all-decided b (ℕ.suc tried) bs)
