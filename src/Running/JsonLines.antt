-- ===== src/Running/JsonLines.antt =====
-- src/running.rs, lines 600 to 670, and src/errors.rs, lines 308 to 430: the iterator over a child's
-- output, one JSON value for each line. The crate's stream gives a line that is JSON, or the program
-- and the message of a failure. `loads` is Python's `json.loads`, and `usize_max` the largest `usize`.
mod Tests
use mathlib.Core.Option
use processkit_py.Common.{
  ℕ, zero, suc, ap, ◌+◌, ◌≤◌, ◌<◌, ◌≡◌, refl, ◌==◌, if◌then◌else◌, Bool, Option, none, some, List,
  [], ◌∷◌, Result, ok, err, arith, length, take, get_elem?, Text,
}
use processkit_py.Errors.{PyErr}
use processkit_py.Errors.Json.{
  utf8, truncate_chars, byte_offset, invalid_json_stdout_chars, truncate_chars-take,
}
use processkit_py.Running.Idle.{Wait, anext}

-- What `json.loads` raises: a `JSONDecodeError`, with its `colno` and `pos`, or something else.
pub data ParseError : Type 0 where
  decode_error : (colno pos : ℕ) → ParseError
  other_error : ParseError

pub record StreamErrorLocation : Type 0 where
  pub column : ℕ
  pub byte_offset : ℕ

-- The `InvalidJson` of a line: what its message is made of. Its `stdout` is `None`.
pub record InvalidLine : Type 0 where
  pub program : Text
  pub line_number : ℕ
  pub location : Option StreamErrorLocation
  pub fragment : List ℕ
  pub parser : ParseError

unfoldable pub stream_decode_location : Text → ParseError → Option StreamErrorLocation
stream_decode_location raw_line (decode_error colno pos) =
    some (record { column = colno; byte_offset = byte_offset raw_line pos })
stream_decode_location raw_line other_error = none

unfoldable pub invalid_json_stream_err : Text → ℕ → Text → ParseError → InvalidLine
unfolding stream_decode_location
invalid_json_stream_err program line_number raw_line e = record {
  program = program;
  line_number = line_number;
  location = stream_decode_location raw_line e;
  fragment = truncate_chars raw_line invalid_json_stdout_chars;
  parser = e;
}

-- An item of the crate's stream.
pub data Item : Type 0 where
  line : Text → Item
  malformed : (program message : Text) → Item

-- What `__anext__` raises: `InvalidJson` of the binding, `InvalidJson` with the crate's program and
-- message, or an exception without attributes.
pub data LineError : Type 0 where
  invalid_line : InvalidLine → LineError
  invalid_item : (program message : Text) → LineError
  plain : PyErr → LineError

-- `fetch_add`, and the sum in release mode
unfoldable pub counted : ℕ → ℕ → ℕ
counted usize_max n = if n == usize_max then 0 else n + 1

-- The future of `__anext__`, once the stream has given an item.
unfoldable pub number_line : ℕ → ℕ → Item → ℕ × Result LineError (Text × ℕ)
unfolding counted
number_line usize_max line_count (line raw) =
    let n = counted usize_max line_count in (n, ok (raw, n))
number_line usize_max line_count (malformed program message) =
    (counted usize_max line_count, err (invalid_item program message))

module _ {J : Type 0} (loads : Text → Result ParseError J) (program : Text) (usize_max : ℕ) where
  loaded : Text → ℕ → Result ParseError J → Result LineError J
  unfolding invalid_json_stream_err
  loaded raw line_number (ok value) = ok value
  loaded raw line_number (err e) =
      err (invalid_line (invalid_json_stream_err program line_number raw e))

  -- The conversion, on the thread of the event loop.
  unfoldable pub convert_line : Result LineError (Text × ℕ) → Result LineError J
  unfolding loaded
  convert_line (ok numbered) = loaded numbered.0 numbered.1 (loads numbered.0)
  convert_line (err e) = err e

  -- `__anext__`, over the waits of the stream: whether the child was killed, the count, and the answer.
  received : ℕ → Option (Bool × Result PyErr Item) → Option (Bool × ℕ × Result LineError J)
  unfolding number_line convert_line
  received line_count none = none
  received line_count (some (killed, err e)) = some (killed, line_count, err (plain e))
  received line_count (some (killed, ok item)) =
      let r = number_line usize_max line_count item in some (killed, r.0, convert_line r.1)

  unfoldable pub anext_json :
      {P : Type 0} → Option P → Bool → ℕ → List (Wait Item) → Option (Bool × ℕ × Result LineError J)
  unfolding received
  anext_json slot guarded line_count waits = received line_count (anext slot some guarded waits)

  -- One call after the other, each with the next item.
  unfoldable pub iterate : ℕ → List Item → List (Result LineError J)
  unfolding number_line convert_line
  iterate line_count [] = []
  iterate line_count (item ∷ items) =
      let r = number_line usize_max line_count item in convert_line r.1 ∷ iterate r.0 items

-- The byte offset of a position is the length of the encoding of what is before it.
abbrev pub position : Text → ParseError → Option StreamErrorLocation
position raw (decode_error colno pos) =
    some (record { column = colno; byte_offset = length (utf8 (take pos raw)) })
position raw other_error = none

abbrev pub report : Text → ℕ → Text → ParseError → InvalidLine
report program n raw e = record {
  program = program;
  line_number = n;
  location = position raw e;
  fragment = utf8 (take invalid_json_stdout_chars raw);
  parser = e;
}

invalid_json_stream_err-report :
    (program raw : Text) (n : ℕ) (e : ParseError)
    → invalid_json_stream_err program n raw e ≡ report program n raw e
unfolding invalid_json_stream_err stream_decode_location
invalid_json_stream_err-report program raw n (decode_error colno pos) =
    ground (arith, truncate_chars-take raw pos, truncate_chars-take raw invalid_json_stdout_chars)
invalid_json_stream_err-report program raw n other_error =
    ground (arith, truncate_chars-take raw invalid_json_stdout_chars)

module _ {J : Type 0} (loads : Text → Result ParseError J) (program : Text) (usize_max : ℕ) where
  abbrev pub answer_loaded : ℕ → Text → Result ParseError J → Result LineError J
  answer_loaded n raw (ok value) = ok value
  answer_loaded n raw (err e) = err (invalid_line (report program n raw e))

  abbrev pub answer : ℕ → Item → Result LineError J
  answer n (line raw) = answer_loaded n raw (loads raw)
  answer n (malformed p message) = err (invalid_item p message)

  loaded-answer :
      (raw : Text) (n : ℕ) (r : Result ParseError J)
      → loaded loads program usize_max raw n r ≡ answer_loaded n raw r
  unfolding loaded
  loaded-answer raw n (ok value) = refl
  loaded-answer raw n (err e) =
      ap (λ i. err (invalid_line i)) (invalid_json_stream_err-report program raw n e)

  convert_line-answer :
      (n : ℕ) (item : Item)
      → n < usize_max
      → ((number_line usize_max n item).0 ≡ n + 1)
        × (convert_line loads program usize_max (number_line usize_max n item).1
            ≡ answer (n + 1) item)
  unfolding number_line convert_line counted
  convert_line-answer n (line raw) h =
      (ground arith, ground (arith, loaded-answer raw (n + 1) (loads raw)))
  convert_line-answer n (malformed p message) h = (ground arith, refl)

  -- The iterator answers every item, whatever the items before it were: a line with the value of its
  -- text, or with an error that has the line's place in the stream, the byte offset in it, and the
  -- encoding of its first characters; and an item that is malformed with the crate's program and
  -- message. This is so as long as the lines can be counted in a `usize`.
  pub iterate-answers :
      (items : List Item) (n k : ℕ)
      → n + length items ≤ usize_max
      → get_elem? (iterate loads program usize_max n items) k
        ≡ Option.map (answer (n + k + 1)) (get_elem? items k)
  unfolding iterate
  iterate-answers [] n k h = refl
  iterate-answers (item ∷ items) n zero h = ground (arith, convert_line-answer n item (omega arith))
  iterate-answers (item ∷ items) n (suc k) h = ground (
    arith,
    convert_line-answer n item (omega arith),
    iterate-answers items (n + 1) k (omega arith),
  )
