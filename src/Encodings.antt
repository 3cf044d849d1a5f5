-- ===== src/Encodings.antt =====
-- src/convert.rs, lines 672 to 708: the labels of encodings. The table of labels of the WHATWG
-- standard is a parameter.
mod Tests
use processkit_py.Common.{
  ℕ, Bool, ◌&&◌, ◌||◌, Option, none, some, [], ◌∷◌, ◌++◌, map, leb, ◌==◌, if◌then◌else◌, Result,
  ok_or, Text, codes, to_ascii_lowercase, text_eq,
}
use processkit_py.Errors.{PyErr, value_error}

-- `char::is_whitespace`
is_whitespace : ℕ → Bool
is_whitespace c =
    (leb 9 c && leb c 13)
    || c == 32
    || c == 0x85
    || c == 0xa0
    || c == 0x1680
    || (leb 0x2000 c && leb c 0x200a)
    || c == 0x2028
    || c == 0x2029
    || c == 0x202f
    || c == 0x205f
    || c == 0x3000

trim_start : Text → Text
unfolding is_whitespace
trim_start [] = []
trim_start (c ∷ s) = if is_whitespace c then trim_start s else c ∷ s

reversed : Text → Text
reversed [] = []
reversed (c ∷ s) = reversed s ++ c ∷ []

-- `str::trim`
unfoldable pub trim : Text → Text
unfolding trim_start reversed
trim s = reversed (trim_start (reversed (trim_start s)))

-- `replace('_', "-")`
unfoldable pub dashes : Text → Text
dashes s = map (λ c. if c == b'_' then b'-' else c) s

module _ {Enc : Type 0} (for_label : Text → Option Enc) where
  -- The `match` on the label in lower case.
  alias : Text → Option Enc
  unfolding text_eq dashes
  alias lower =
      if text_eq lower (codes "latin")
        || text_eq lower (codes "latin-1")
        || text_eq lower (codes "latin_1")
      then for_label (codes "iso-8859-1")
      else for_label (dashes lower)

  or_alias : Option Enc → Text → Option Enc
  unfolding alias
  or_alias (some encoding) lower = some encoding
  or_alias none lower = alias lower

  unfoldable pub resolve_encoding : Text → Option Enc
  unfolding trim to_ascii_lowercase or_alias
  resolve_encoding label = or_alias (for_label label) (to_ascii_lowercase (trim label))

  unfoldable pub parse_encoding : Text → Result PyErr Enc
  unfolding resolve_encoding
  parse_encoding label = ok_or value_error (resolve_encoding label)
