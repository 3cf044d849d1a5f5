-- ===== src/Batch/Order.antt =====
-- src/batch.rs, lines 52 to 63 and 100 to 131: the place of each result.
use processkit_py.Common.{
  ℕ, zero, suc, ◌<◌, ◌≡◌, ◌∙◌, refl, Option, none, some, List, [], ◌∷◌, arith, map, set, replicate,
  length, get_elem?, unwrap_or, ltb, ◌==◌, if◌then◌else◌, length-map, length-set, length-replicate,
  Option-cases, inl, inr,
}
use processkit_py.Errors.{value_error}
use processkit_py.Batch.{
  Slot, predicate_error, result, Item, item_slot, fill, missing, collect_in_input_order,
}

module _ {T E : Type 0} where
  -- The last item with the index `i`.
  abbrev pub find_item : ℕ → List (Item T E) → Option (Item T E)
  find_item i [] = none
  find_item i (x ∷ items) = elim (find_item i items) [
    | some y ↦ some y
    | none ↦ if x.index == i then some x else none
  ]

  abbrev pub report : Option (Item T E) → Slot T E
  report none = predicate_error value_error
  report (some x) = elim (x.captured) [ some e ↦ predicate_error e | none ↦ result x.outcome ]

  abbrev reported : Option (Item T E) → Slot T E
  reported none = missing
  reported (some x) = item_slot x

  reported-report : (o : Option (Item T E)) → reported o ≡ report o
  unfolding item_slot
  reported-report none = refl
  reported-report (some x) = elim (Option-cases x.captured) [
    | inl absent ↦ ground (arith, absent)
    | inr (e, found) ↦ ground (arith, found)
  ]

  get_elem?-set :
      (slots : List (Option (Slot T E))) (i j : ℕ) (v : Option (Slot T E))
      → get_elem? (set slots i v) j
        ≡ (if i == j then (if ltb j (length slots) then some v else none) else get_elem? slots j)
  get_elem?-set [] i j v = ground arith
  get_elem?-set (x ∷ slots) zero zero v = ground arith
  get_elem?-set (x ∷ slots) zero (suc j) v = ground arith
  get_elem?-set (x ∷ slots) (suc i) zero v = ground arith
  get_elem?-set (x ∷ slots) (suc i) (suc j) v = ground (arith, get_elem?-set slots i j v)

  length-fill :
      (items : List (Item T E)) (slots : List (Option (Slot T E)))
      → length (fill items slots) ≡ length slots
  unfolding fill
  length-fill [] slots = refl
  length-fill (x ∷ items) slots =
      length-fill items (set slots x.index (some (item_slot x)))
      ∙ length-set slots x.index (some (item_slot x))

  abbrev filled : Option (Item T E) → Option (Option (Slot T E)) → Option (Option (Slot T E))
  filled none old = old
  filled (some x) old = some (some (item_slot x))

  get_elem?-fill :
      (items : List (Item T E)) (slots : List (Option (Slot T E))) (j : ℕ)
      → j < length slots
      → get_elem? (fill items slots) j ≡ filled (find_item j items) (get_elem? slots j)
  unfolding fill
  get_elem?-fill [] slots j h = refl
  get_elem?-fill (x ∷ items) slots j h =
      let s : List (Option (Slot T E)) = set slots x.index (some (item_slot x)) in
      ground (
        arith,
        get_elem?-fill items s j (omega (arith, length-set slots x.index (some (item_slot x)))),
        get_elem?-set slots x.index j (some (item_slot x)),
      )

  get_elem?-map {κ} :
      {B : Type κ} (f : Option (Slot T E) → B) (xs : List (Option (Slot T E))) (j : ℕ)
      → get_elem? (map f xs) j ≡ elim (get_elem? xs j) [ none ↦ none | some x ↦ some (f x) ]
  get_elem?-map f [] j = refl
  get_elem?-map f (x ∷ xs) zero = refl
  get_elem?-map f (x ∷ xs) (suc j) = get_elem?-map f xs j

  get_elem?-replicate :
      (n j : ℕ) → j < n → get_elem? (replicate {A = Option (Slot T E)} n none) j ≡ some none
  get_elem?-replicate zero j h = absurd (omega arith)
  get_elem?-replicate (suc n) zero h = refl
  get_elem?-replicate (suc n) (suc j) h = get_elem?-replicate n j (omega arith)

  -- The list of a batch has one entry for each command. The entry of a command is the last report
  -- with its index, whenever that arrived: the exception captured with it if there is one, or else
  -- the outcome; a command without a report gets the `ValueError` of a driver that ended early.
  pub collect_in_input_order-indexed :
      (items : List (Item T E)) (total : ℕ)
      → (length (collect_in_input_order items total) ≡ total)
        × ((j : ℕ)
            → j < total
            → get_elem? (collect_in_input_order items total) j ≡ some (report (find_item j items)))
  unfolding collect_in_input_order
  collect_in_input_order-indexed items total =
      let none_yet : List (Option (Slot T E)) = replicate total none in
      (
        length-map (fill items none_yet) (λ slot. unwrap_or slot missing)
            ∙ length-fill items none_yet
            ∙ length-replicate total none,
        λ j h. ground (
          arith,
          get_elem?-map (λ (slot : Option (Slot T E)). unwrap_or slot missing) (fill items none_yet)
              j,
          get_elem?-fill items none_yet j
              (omega (arith, length-replicate {A = Option (Slot T E)} total none)),
          get_elem?-replicate total j h,
          reported-report (find_item j items),
        ),
      )
