-- ===== src/Presets/Signal.antt =====
-- src/convert.rs, lines 713 to 843: signals, given by name or as a raw number. Of the two builds, for
-- Unix and for Windows, `Platform` says which; the highest deliverable number is the platform's.
use processkit_py.Common.{
  ℕ, ◌≤◌, ◌≡◌, ◌↔◌, ◌⊎◌, inl, inr, refl, subst, sym, List, [], ◌∷◌, arith, ltb, leb, ◌==◌, ◌&&◌,
  if◌then◌else◌, Result, ok, err, Text, codes, to_ascii_lowercase, text_eq, All,
}
use processkit_py.Errors.{PyErr, value_error, type_error, unsupported}
use processkit_py.Sink.{PyInt, nonnegative, negative}
use processkit_py.Presets.{match_key, normalize_named_preset, Arg, bool, int, str, object}
use processkit_py.Presets.Spelling.{OneOf, match_key_lem}

-- The crate's `Signal`, as far as the source names its variants.
pub data Signal : Type 0 where
  term kill interrupt hup quit usr1 usr2 : Signal
  number : ℕ → Signal

-- Unix with the value of `max_deliverable_signal`, or any other platform.
pub data Platform : Type 0 where
  unix : ℕ → Platform
  windows : Platform

abbrev pub signals : List (Text × Signal)
signals =
    (codes "term", term)
    ∷ (codes "kill", kill)
    ∷ (codes "int", interrupt)
    ∷ (codes "hup", hup)
    ∷ (codes "quit", quit)
    ∷ (codes "usr1", usr1)
    ∷ (codes "usr2", usr2)
    ∷ []

-- `key.strip_prefix("sig").unwrap_or(&key)`
unfoldable pub strip_sig : Text → Text
strip_sig (a ∷ b ∷ c ∷ rest) =
    if a == b's' && (b == b'i' && c == b'g') then rest else a ∷ b ∷ c ∷ rest
strip_sig key = key

unfoldable pub parse_signal_name : Text → Result PyErr Signal
unfolding normalize_named_preset strip_sig match_key
parse_signal_name name = match_key signals (strip_sig (normalize_named_preset name))

-- `i32::MAX`
abbrev pub i32_max : ℕ
i32_max = 2147483647

unfoldable pub validate_raw_signal : Platform → PyInt → Result PyErr Signal
validate_raw_signal (unix max) (negative n) = err value_error
validate_raw_signal (unix max) (nonnegative n) =
    if leb 1 n && leb n max then ok (number n) else err value_error
validate_raw_signal windows raw = err unsupported

-- `obj.extract::<i32>()`, with an overflow turned into `raw_signal_range_error`.
unfoldable pub extract_i32 : PyInt → Result PyErr PyInt
extract_i32 (nonnegative n) = if ltb i32_max n then err value_error else ok (nonnegative n)
extract_i32 (negative n) = if ltb i32_max n then err value_error else ok (negative n)

unfoldable pub parse_signal : Platform → Arg → Result PyErr Signal
unfolding validate_raw_signal extract_i32 parse_signal_name
parse_signal platform (bool b) = err type_error
parse_signal platform (int n) = elim (extract_i32 n) [
  | err e ↦ err e
  | ok raw ↦ validate_raw_signal platform raw
]
parse_signal platform (str name) = parse_signal_name name
parse_signal platform object = err type_error

-- The documented name of a signal; a raw number has none.
abbrev signal_names : Signal → List Text
signal_names term = codes "term" ∷ []
signal_names kill = codes "kill" ∷ []
signal_names interrupt = codes "int" ∷ []
signal_names hup = codes "hup" ∷ []
signal_names quit = codes "quit" ∷ []
signal_names usr1 = codes "usr1" ∷ []
signal_names usr2 = codes "usr2" ∷ []
signal_names (number n) = []

abbrev Finds : Signal → Text → Type 0
Finds g name = match_key signals name ≡ ok g

signal-Finds : (g : Signal) → All (Finds g) (signal_names g)
unfolding match_key text_eq
signal-Finds term = (refl, tt)
signal-Finds kill = (refl, tt)
signal-Finds interrupt = (refl, tt)
signal-Finds hup = (refl, tt)
signal-Finds quit = (refl, tt)
signal-Finds usr1 = (refl, tt)
signal-Finds usr2 = (refl, tt)
signal-Finds (number n) = tt

-- The spellings of a signal: its name, and the name after "sig".
abbrev signal_spellings : Signal → List Text
signal_spellings term = codes "term" ∷ codes "sigterm" ∷ []
signal_spellings kill = codes "kill" ∷ codes "sigkill" ∷ []
signal_spellings interrupt = codes "int" ∷ codes "sigint" ∷ []
signal_spellings hup = codes "hup" ∷ codes "sighup" ∷ []
signal_spellings quit = codes "quit" ∷ codes "sigquit" ∷ []
signal_spellings usr1 = codes "usr1" ∷ codes "sigusr1" ∷ []
signal_spellings usr2 = codes "usr2" ∷ codes "sigusr2" ∷ []
signal_spellings (number n) = []

-- The arguments that stand for a signal.
abbrev pub Names : Platform → Arg → Signal → Type 0
Names platform (str s) g = OneOf (to_ascii_lowercase s) (signal_spellings g)
Names (unix max) (int (nonnegative n)) g = (g ≡ number n) × (1 ≤ n) × (n ≤ max) × (n ≤ i32_max)
Names platform arg g = ⊥

strip_sig-only :
    (key name : Text) → strip_sig key ≡ name → (key ≡ name) ⊎ (key ≡ b's' ∷ b'i' ∷ b'g' ∷ name)
unfolding strip_sig
strip_sig-only [] name h = inl h
strip_sig-only (a ∷ []) name h = inl h
strip_sig-only (a ∷ b ∷ []) name h = inl h
strip_sig-only (a ∷ b ∷ c ∷ rest) name h = ground (arith, h)

stripped :
    (key : Text) (g : Signal)
    → OneOf (strip_sig key) (signal_names g)
    → OneOf key (signal_spellings g)
stripped key (number n) h = h
stripped key term (inl e) = elim (strip_sig-only key (codes "term") e) [
  | inl k ↦ inl k
  | inr k ↦ inr (inl k)
]
stripped key term (inr later) = elim later [ ]
stripped key kill (inl e) = elim (strip_sig-only key (codes "kill") e) [
  | inl k ↦ inl k
  | inr k ↦ inr (inl k)
]
stripped key kill (inr later) = elim later [ ]
stripped key interrupt (inl e) = elim (strip_sig-only key (codes "int") e) [
  | inl k ↦ inl k
  | inr k ↦ inr (inl k)
]
stripped key interrupt (inr later) = elim later [ ]
stripped key hup (inl e) = elim (strip_sig-only key (codes "hup") e) [
  | inl k ↦ inl k
  | inr k ↦ inr (inl k)
]
stripped key hup (inr later) = elim later [ ]
stripped key quit (inl e) = elim (strip_sig-only key (codes "quit") e) [
  | inl k ↦ inl k
  | inr k ↦ inr (inl k)
]
stripped key quit (inr later) = elim later [ ]
stripped key usr1 (inl e) = elim (strip_sig-only key (codes "usr1") e) [
  | inl k ↦ inl k
  | inr k ↦ inr (inl k)
]
stripped key usr1 (inr later) = elim later [ ]
stripped key usr2 (inl e) = elim (strip_sig-only key (codes "usr2") e) [
  | inl k ↦ inl k
  | inr k ↦ inr (inl k)
]
stripped key usr2 (inr later) = elim later [ ]

-- Each spelling of a signal is stripped to its name.
abbrev StripsTo : Signal → Text → Type 0
StripsTo g spelling = OneOf (strip_sig spelling) (signal_names g)

signal-StripsTo : (g : Signal) → All (StripsTo g) (signal_spellings g)
unfolding strip_sig
signal-StripsTo term = (inl refl, (inl refl, tt))
signal-StripsTo kill = (inl refl, (inl refl, tt))
signal-StripsTo interrupt = (inl refl, (inl refl, tt))
signal-StripsTo hup = (inl refl, (inl refl, tt))
signal-StripsTo quit = (inl refl, (inl refl, tt))
signal-StripsTo usr1 = (inl refl, (inl refl, tt))
signal-StripsTo usr2 = (inl refl, (inl refl, tt))
signal-StripsTo (number n) = tt

OneOf-All :
    (P : Text → Type 0) (key : Text) (names : List Text) → All P names → OneOf key names → P key
OneOf-All P key [] met h = elim h [ ]
OneOf-All P key (name ∷ names) (here, there) (inl e) = subst P (sym e) here
OneOf-All P key (name ∷ names) (here, there) (inr later) = OneOf-All P key names there later

name_iff :
    (s : Text) (g : Signal)
    → (parse_signal_name s ≡ ok g) ↔ OneOf (to_ascii_lowercase s) (signal_spellings g)
unfolding parse_signal_name normalize_named_preset
name_iff s g =
    let key = to_ascii_lowercase s in
    let (there, back) =
      match_key_lem signal_names signals
        (inl refl, (inl refl, (inl refl, (inl refl, (inl refl, (inl refl, (inl refl, tt)))))))
        signal-Finds (strip_sig key) g in
    (
      λ accepted. stripped key g (there accepted),
      λ spelled. back (OneOf-All (StripsTo g) key (signal_spellings g) (signal-StripsTo g) spelled),
    )

-- A signal argument is accepted exactly when it is a text that, with its ASCII letters lowered, is the
-- name of a signal, with or without one "sig" in front, or, on Unix, a Python integer that is no
-- `bool`, at least 1, and at most the highest deliverable signal and the largest `i32`.
pub parse_signal_iff :
    (platform : Platform) (arg : Arg) (g : Signal)
    → (parse_signal platform arg ≡ ok g) ↔ Names platform arg g
unfolding parse_signal
parse_signal_iff platform (str s) g = name_iff s g
parse_signal_iff (unix max) (int (nonnegative n)) g = ground arith
parse_signal_iff (unix max) (int (negative n)) g = ground arith
parse_signal_iff windows (int (nonnegative n)) g = ground arith
parse_signal_iff windows (int (negative n)) g = ground arith
parse_signal_iff (unix max) (bool b) g = ground arith
parse_signal_iff windows (bool b) g = ground arith
parse_signal_iff (unix max) object g = ground arith
parse_signal_iff windows object g = ground arith
