-- ===== src/Running/JsonLines/Tests.antt =====
-- A run of the iterator of JSON lines over three items, of which one is JSON.
use mathlib.Core.Option
use processkit_py.Common.{
  ℕ, ◌≡◌, Bool, false, ◌==◌, if◌then◌else◌, List, [], ◌∷◌, Result, ok, err, arith, get_elem?, Text,
  codes,
}
use processkit_py.Running.JsonLines.{
  ParseError, decode_error, Item, line, malformed, iterate, answer, iterate-answers,
}

abbrev is_list : Text → Bool
is_list [] = false
is_list (c ∷ text) = c == 91

-- It takes whatever starts as a list, and finds an error in the second character of anything else.
abbrev loads : Text → Result ParseError ℕ
loads text = if is_list text then ok 0 else err (decode_error 2 1)

abbrev items : List Item
items = line (codes "[]") ∷ malformed (codes "tool") (codes "bad") ∷ line (codes "é!") ∷ []

iterate-answers_example :
    get_elem? (iterate loads (codes "tool") 255 0 items) 2
    ≡ Option.map (answer loads (codes "tool") 255 3) (get_elem? items 2)
iterate-answers_example = iterate-answers loads (codes "tool") 255 items 0 2 (omega arith)
