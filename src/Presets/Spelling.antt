-- ===== src/Presets/Spelling.antt =====
-- src/convert.rs and src/supervisor.rs: which spellings the parsers of named presets accept.
use processkit_py.Common.{
  ◌≤◌, ◌≡◌, ◌⊎◌, ◌↔◌, inl, inr, refl, Option, none, some, List, [], ◌∷◌, arith, subst, ok, Text,
  codes, to_ascii_lowercase, text_eq, text_eq-eq, All, Bool-cases,
}
use processkit_py.Sink.{nonnegative}
use processkit_py.Presets.{
  match_key, normalize_named_preset, StdioMode, piped, inherit, null, stdio_modes, parse_stdio_mode,
  Priority, below_normal, normal, above_normal, high, priorities, parse_priority, OverflowMode,
  drop_oldest, drop_newest, error, overflow_modes, parse_overflow_mode, LineTerminator, newline,
  carriage_return, line_terminators, parse_line_terminator, RestartPolicy, always, never, on_crash,
  restart_policies, parse_restart_policy, Arg, int, IoPriority, best_effort, real_time,
  parse_io_priority,
}

-- `key` is one of the names.
abbrev pub OneOf : Text → List Text → Type 0
OneOf key [] = ⊥
OneOf key (name ∷ names) = (key ≡ name) ⊎ OneOf key names

-- The documented spellings.
abbrev pub stdio_names : StdioMode → List Text
stdio_names piped = codes "pipe" ∷ codes "piped" ∷ []
stdio_names inherit = codes "inherit" ∷ []
stdio_names null = codes "null" ∷ codes "discard" ∷ []

abbrev pub priority_names : Priority → List Text
priority_names Priority.idle = codes "idle" ∷ []
priority_names below_normal = codes "below_normal" ∷ []
priority_names normal = codes "normal" ∷ []
priority_names above_normal = codes "above_normal" ∷ []
priority_names high = codes "high" ∷ []

abbrev pub overflow_names : OverflowMode → List Text
overflow_names drop_oldest = codes "drop_oldest" ∷ []
overflow_names drop_newest = codes "drop_newest" ∷ []
overflow_names error = codes "error" ∷ []

abbrev pub terminator_names : LineTerminator → List Text
terminator_names newline = codes "newline" ∷ codes "lf" ∷ []
terminator_names carriage_return = codes "carriage_return" ∷ codes "cr" ∷ []

abbrev pub restart_names : RestartPolicy → List Text
restart_names always = codes "always" ∷ []
restart_names never = codes "never" ∷ []
restart_names on_crash = codes "on_crash" ∷ codes "on-crash" ∷ codes "oncrash" ∷ []

module _ {A : Type 0} where
  abbrev Listed : (A → List Text) → Text × A → Type 0
  Listed names arm = OneOf arm.0 (names arm.1)

  match_key-Listed :
      (names : A → List Text) (arms : List (Text × A)) (key : Text) (a : A)
      → All (Listed names) arms
      → match_key arms key ≡ ok a
      → OneOf key (names a)
  unfolding match_key
  match_key-Listed names [] key a l h = cc
  match_key-Listed names ((name, b) ∷ arms) key a l h = elim (Bool-cases (text_eq key name)) [
    | inl same ↦
        let matched : b ≡ a = ground (arith, same) in
        subst (λ k. OneOf k (names a)) (rw (text_eq-eq key name same) refl)
          (subst (λ c. OneOf name (names c)) matched l.0)
    | inr other ↦ match_key-Listed names arms key a l.1 (ground (arith, other))
  ]

  abbrev Accepts : List (Text × A) → A → Text → Type 0
  Accepts arms a name = match_key arms name ≡ ok a

  match_key-Accepts :
      (arms : List (Text × A)) (a : A) (names : List Text) (key : Text)
      → All (Accepts arms a) names
      → OneOf key names
      → match_key arms key ≡ ok a
  match_key-Accepts arms a [] key h o = elim o [ ]
  match_key-Accepts arms a (name ∷ names) key h (inl e) = rw e h.0
  match_key-Accepts arms a (name ∷ names) key h (inr o) = match_key-Accepts arms a names key h.1 o

  -- A table that lists each name under its variant, and finds it there, is a lookup of names.
  pub match_key_lem :
      (names : A → List Text) (arms : List (Text × A))
      → All (Listed names) arms
      → ((a : A) → All (Accepts arms a) (names a))
      → (key : Text) (a : A) → (match_key arms key ≡ ok a) ↔ OneOf key (names a)
  match_key_lem names arms l acc key a =
      (match_key-Listed names arms key a l, match_key-Accepts arms a (names a) key (acc a))

stdio-Accepts : (m : StdioMode) → All (Accepts stdio_modes m) (stdio_names m)
unfolding match_key text_eq
stdio-Accepts piped = (refl, (refl, tt))
stdio-Accepts inherit = (refl, tt)
stdio-Accepts null = (refl, (refl, tt))

priority-Accepts : (m : Priority) → All (Accepts priorities m) (priority_names m)
unfolding match_key text_eq
priority-Accepts Priority.idle = (refl, tt)
priority-Accepts below_normal = (refl, tt)
priority-Accepts normal = (refl, tt)
priority-Accepts above_normal = (refl, tt)
priority-Accepts high = (refl, tt)

overflow-Accepts : (m : OverflowMode) → All (Accepts overflow_modes m) (overflow_names m)
unfolding match_key text_eq
overflow-Accepts drop_oldest = (refl, tt)
overflow-Accepts drop_newest = (refl, tt)
overflow-Accepts error = (refl, tt)

terminator-Accepts : (m : LineTerminator) → All (Accepts line_terminators m) (terminator_names m)
unfolding match_key text_eq
terminator-Accepts newline = (refl, (refl, tt))
terminator-Accepts carriage_return = (refl, (refl, tt))

restart-Accepts : (m : RestartPolicy) → All (Accepts restart_policies m) (restart_names m)
unfolding match_key text_eq
restart-Accepts always = (refl, tt)
restart-Accepts never = (refl, tt)
restart-Accepts on_crash = (refl, (refl, (refl, tt)))

-- The five parsers of named presets accept a text as a variant exactly when the text, with its ASCII
-- letters lowered, is one of the documented spellings of that variant.
pub presets_accept_spellings :
    (s : Text)
    → ((m : StdioMode) → (parse_stdio_mode s ≡ ok m) ↔ OneOf (to_ascii_lowercase s) (stdio_names m))
      × ((m : Priority)
          → (parse_priority s ≡ ok m) ↔ OneOf (to_ascii_lowercase s) (priority_names m))
      × ((m : OverflowMode)
          → (parse_overflow_mode s ≡ ok m) ↔ OneOf (to_ascii_lowercase s) (overflow_names m))
      × ((m : LineTerminator)
          → (parse_line_terminator s ≡ ok m) ↔ OneOf (to_ascii_lowercase s) (terminator_names m))
      × ((m : RestartPolicy)
          → (parse_restart_policy s ≡ ok m) ↔ OneOf (to_ascii_lowercase s) (restart_names m))
unfolding parse_stdio_mode parse_priority parse_overflow_mode parse_line_terminator
    parse_restart_policy normalize_named_preset
presets_accept_spellings s = (
  match_key_lem stdio_names stdio_modes
      (inl refl, (inr (inl refl), (inl refl, (inl refl, (inr (inl refl), tt))))) stdio-Accepts
      (to_ascii_lowercase s),
  match_key_lem priority_names priorities
      (inl refl, (inl refl, (inl refl, (inl refl, (inl refl, tt))))) priority-Accepts
      (to_ascii_lowercase s),
  match_key_lem overflow_names overflow_modes (inl refl, (inl refl, (inl refl, tt)))
      overflow-Accepts (to_ascii_lowercase s),
  match_key_lem terminator_names line_terminators
      (inl refl, (inr (inl refl), (inl refl, (inr (inl refl), tt)))) terminator-Accepts
      (to_ascii_lowercase s),
  match_key_lem restart_names restart_policies
      (inl refl, (inl refl, (inl refl, (inr (inl refl), (inr (inr (inl refl)), tt)))))
      restart-Accepts (to_ascii_lowercase s),
)

-- The class name, with its ASCII letters lowered, and the level that give an I/O priority.
abbrev pub Gives : Text → Option Arg → IoPriority → Type 0
Gives key level IoPriority.idle = (key ≡ codes "idle") × (level ≡ none)
Gives key level (best_effort n) =
    (key ≡ codes "best_effort") × (level ≡ some (int (nonnegative n))) × (n ≤ 7)
Gives key level (real_time n) =
    (key ≡ codes "real_time") × (level ≡ some (int (nonnegative n))) × (n ≤ 7)

io_priority_sound :
    (class_name : Text) (level : Option Arg) (p : IoPriority)
    → parse_io_priority class_name level ≡ ok p
    → Gives (to_ascii_lowercase class_name) level p
unfolding parse_io_priority normalize_named_preset
io_priority_sound class_name level p h =
    elim (Bool-cases (text_eq (to_ascii_lowercase class_name) (codes "idle"))) [
      | inl i ↦ ground (arith, i, text_eq-eq (to_ascii_lowercase class_name) (codes "idle") i)
      | inr not_i ↦
          elim (Bool-cases (text_eq (to_ascii_lowercase class_name) (codes "best_effort"))) [
            | inl b ↦ ground (
              arith,
              not_i,
              b,
              text_eq-eq (to_ascii_lowercase class_name) (codes "best_effort") b,
            )
            | inr not_b ↦
                elim (Bool-cases (text_eq (to_ascii_lowercase class_name) (codes "real_time"))) [
                  | inl r ↦ ground (
                    arith,
                    not_i,
                    not_b,
                    r,
                    text_eq-eq (to_ascii_lowercase class_name) (codes "real_time") r,
                  )
                  | inr not_r ↦ ground (arith, not_i, not_b, not_r)
                ]
          ]
    ]

io_priority_complete :
    (class_name : Text) (level : Option Arg) (p : IoPriority)
    → Gives (to_ascii_lowercase class_name) level p
    → parse_io_priority class_name level ≡ ok p
unfolding parse_io_priority normalize_named_preset text_eq
io_priority_complete class_name level IoPriority.idle h = rw (h.0, h.1) refl
io_priority_complete class_name level (best_effort n) h = rw (h.0, h.1) (ground arith)
io_priority_complete class_name level (real_time n) h = rw (h.0, h.1) (ground arith)

-- An I/O priority is accepted exactly when its class is "idle" and no level is given, or its class
-- is "best_effort" or "real_time" and the level is a Python integer, no `bool`, from 0 to 7; the
-- case of the class's ASCII letters does not matter.
pub parse_io_priority_iff :
    (class_name : Text) (level : Option Arg) (p : IoPriority)
    → (parse_io_priority class_name level ≡ ok p) ↔ Gives (to_ascii_lowercase class_name) level p
parse_io_priority_iff class_name level p =
    (io_priority_sound class_name level p, io_priority_complete class_name level p)
