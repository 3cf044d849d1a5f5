-- ===== src/Batch/Tests.antt =====
-- src/batch.rs: two commands, of which the second finishes first.
use processkit_py.Common.{ℕ, ◌<◌, ◌≡◌, none, some, [], ◌∷◌, ok, err, length, get_elem?}
use processkit_py.Batch.{Item, collect_in_input_order}
use processkit_py.Batch.Order.{find_item, report, collect_in_input_order-indexed}

abbrev first : Item ℕ ℕ
first = record { index = 0; outcome = ok 10; captured = none }

abbrev second : Item ℕ ℕ
second = record { index = 1; outcome = err 3; captured = none }

collect_in_input_order-indexed_example :
    (length (collect_in_input_order (second ∷ first ∷ []) 3) ≡ 3)
    × ((j : ℕ)
        → j < 3
        → get_elem? (collect_in_input_order (second ∷ first ∷ []) 3) j
          ≡ some (report (find_item j (second ∷ first ∷ []))))
collect_in_input_order-indexed_example = collect_in_input_order-indexed (second ∷ first ∷ []) 3
