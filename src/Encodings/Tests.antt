-- ===== src/Encodings/Tests.antt =====
-- Runs of src/convert.rs on concrete labels.
use processkit_py.Common.{
  ◌≡◌, refl, Option, none, some, ok, err, if◌then◌else◌, Text, codes, text_eq,
}
use processkit_py.Errors.{value_error}
use processkit_py.Encodings.{parse_encoding}

-- A table with two labels, each of which stands for itself.
table : Text → Option Text
unfolding text_eq
table label =
    if text_eq label (codes "utf-8")
    then some label
    else if text_eq label (codes "iso-8859-1")
    then some label
    else none

alias_with_spaces : parse_encoding table (codes " Latin_1 ") ≡ ok (codes "iso-8859-1")
unfolding parse_encoding table
alias_with_spaces = refl

underscore : parse_encoding table (codes "UTF_8") ≡ ok (codes "utf-8")
unfolding parse_encoding table
underscore = refl

unknown : parse_encoding table (codes "mbcs") ≡ err value_error
unfolding parse_encoding table
unknown = refl
