-- ===== src/Errors/Json.antt =====
-- src/errors.rs, lines 250 to 410, src/cli.rs, lines 211 to 238, and src/command.rs, lines 1197 to 1201:
-- the output of a command, parsed as JSON, and the fragment of it that an error keeps. A text is its
-- code points; the bytes are those of its UTF-8 encoding.
use processkit_py.Common.{
  ℕ, zero, suc, ◌+◌, ◌/◌, ◌%◌, ◌≤◌, ◌≡◌, ◌∙◌, ap, refl, Option, none, some, List, [], ◌∷◌, ◌++◌,
  ltb, if◌then◌else◌, Result, ok, err, arith, length, take, drop, length-append, take-append-drop,
  ◌⊎◌, inl, inr, sym, Text,
}
use mathlib.Core.List.{append_assoc}
use processkit_py.Errors.{PyErr}

-- The encoding of one code point.
unfoldable pub utf8_char : ℕ → List ℕ
utf8_char c =
    if ltb c 0x80
    then c ∷ []
    else if ltb c 0x800
    then (0xc0 + c / 64) ∷ (0x80 + c % 64) ∷ []
    else if ltb c 0x10000
    then (0xe0 + c / 4096) ∷ (0x80 + c / 64 % 64) ∷ (0x80 + c % 64) ∷ []
    else (0xf0 + c / 262144) ∷ (0x80 + c / 4096 % 64) ∷ (0x80 + c / 64 % 64) ∷ (0x80 + c % 64) ∷ []

unfoldable pub utf8 : Text → List ℕ
unfolding utf8_char
utf8 [] = []
utf8 (c ∷ s) = utf8_char c ++ utf8 s

-- `char_indices().nth(n)`, as the byte offset alone; `offset` is that of the first character.
unfoldable pub nth_offset : ℕ → Text → ℕ → Option ℕ
unfolding utf8_char
nth_offset offset [] n = none
nth_offset offset (c ∷ s) zero = some offset
nth_offset offset (c ∷ s) (suc n) = nth_offset (offset + length (utf8_char c)) s n

-- The `match` of `truncate_chars`, on the bytes.
cut : List ℕ → Option ℕ → List ℕ
cut bytes none = bytes
cut bytes (some offset) = take offset bytes

unfoldable pub truncate_chars : Text → ℕ → List ℕ
unfolding utf8 nth_offset cut
truncate_chars text max_chars = cut (utf8 text) (nth_offset 0 text max_chars)

abbrev pub invalid_json_stdout_chars : ℕ
invalid_json_stdout_chars = 2048

-- The byte offset that `stream_decode_location` reports for a position in a line.
or_end : List ℕ → Option ℕ → ℕ
or_end bytes none = length bytes
or_end bytes (some offset) = offset

unfoldable pub byte_offset : Text → ℕ → ℕ
unfolding utf8 nth_offset or_end
byte_offset raw_line char_pos = or_end (utf8 raw_line) (nth_offset 0 raw_line char_pos)

-- `InvalidJson` with its attributes.
pub record InvalidJson : Type 0 where
  pub program : Text
  pub stdout : List ℕ

unfoldable pub invalid_json_err : Text → Text → InvalidJson
unfolding truncate_chars
invalid_json_err program stdout = record {
  program = program;
  stdout = truncate_chars stdout invalid_json_stdout_chars;
}

-- A failure of a run, or of the parse of its output.
pub data JsonError : Type 0 where
  failed_run : PyErr → JsonError
  not_json : InvalidJson → JsonError

parsed : {J : Type 0} → Text → Text → Option J → Result JsonError J
unfolding invalid_json_err
parsed program text (some value) = ok value
parsed program text none = err (not_json (invalid_json_err program text))

-- `loads` is Python's `json.loads`.
unfoldable pub parse_json : {J : Type 0} → (Text → Option J) → Text → Text → Result JsonError J
unfolding parsed
parse_json loads program text = parsed program text (loads text)

-- `run_json` and `arun_json`, from what the run gives.
unfoldable pub run_json :
    {J : Type 0} → (Text → Option J) → Text → Result PyErr Text → Result JsonError J
unfolding parse_json
run_json loads program (ok text) = parse_json loads program text
run_json loads program (err e) = err (failed_run e)

length-take : {A : Type 0} (n : ℕ) (xs : List A) → length (take n xs) ≤ n
length-take zero xs = omega arith
length-take (suc n) [] = omega arith
length-take (suc n) (x ∷ xs) = omega (arith, length-take n xs)

take-append : {A : Type 0} (xs ys : List A) → take (length xs) (xs ++ ys) ≡ xs
take-append [] ys = refl
take-append (x ∷ xs) ys = ap (λ t. x ∷ t) (take-append xs ys)

utf8-append : (s t : Text) → utf8 (s ++ t) ≡ utf8 s ++ utf8 t
unfolding utf8
utf8-append [] t = refl
utf8-append (c ∷ s) t =
    ap (λ b. utf8_char c ++ b) (utf8-append s t)
    ∙ sym (append_assoc (utf8_char c) (utf8 s) (utf8 t))

nth_offset-take :
    (s : Text) (n offset : ℕ)
    → ((nth_offset offset s n ≡ none) × (take n s ≡ s))
      ⊎ (nth_offset offset s n ≡ some (offset + length (utf8 (take n s))))
unfolding nth_offset utf8
nth_offset-take [] zero offset = inl (refl, refl)
nth_offset-take [] (suc n) offset = inl (refl, refl)
nth_offset-take (c ∷ s) zero offset = inr (ground arith)
nth_offset-take (c ∷ s) (suc n) offset =
    let len = length (utf8_char c) in
    elim (nth_offset-take s n (offset + len)) [
      | inl h ↦ inl (h.0, ap (λ t. c ∷ t) h.1)
      | inr h ↦ inr (h ∙ ap some (omega (arith, length-append (utf8_char c) (utf8 (take n s)))))
    ]

take-utf8 : (s : Text) (n : ℕ) → take (length (utf8 (take n s))) (utf8 s) ≡ utf8 (take n s)
take-utf8 s n =
    let bytes = utf8 (take n s) in
    ap (λ t. take (length bytes) (utf8 t)) (sym (take-append-drop n s))
    ∙ ap (take (length bytes)) (utf8-append (take n s) (drop n s))
    ∙ take-append bytes (utf8 (drop n s))

nth_start-take :
    (s : Text) (n : ℕ)
    → ((nth_offset 0 s n ≡ none) × (take n s ≡ s))
      ⊎ (nth_offset 0 s n ≡ some (length (utf8 (take n s))))
nth_start-take s n = elim (nth_offset-take s n 0) [
  | inl h ↦ inl h
  | inr h ↦ inr (h ∙ ap some (omega arith))
]

-- The fragment that an error keeps of a text is the encoding of its first characters, as many as are
-- asked for if it has so many, and all of them otherwise: it never ends within a character. The byte
-- offset that is reported for a position is the length of the encoding of what is before it.
pub truncate_chars-take :
    (s : Text) (n : ℕ)
    → (truncate_chars s n ≡ utf8 (take n s))
      × (byte_offset s n ≡ length (utf8 (take n s)))
      × length (take n s) ≤ n
unfolding truncate_chars byte_offset
truncate_chars-take s n = elim (nth_start-take s n) [
  | inl h ↦ (
    ap (cut (utf8 s)) h.0 ∙ ap utf8 (sym h.1),
    ap (or_end (utf8 s)) h.0 ∙ ap (λ t. length (utf8 t)) (sym h.1),
    length-take n s,
  )
  | inr h ↦ (ap (cut (utf8 s)) h ∙ take-utf8 s n, ap (or_end (utf8 s)) h, length-take n s)
]
