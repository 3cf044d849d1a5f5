-- ===== src/Batch/Schedule.antt =====
-- src/batch.rs: the results under another order in which the commands finish.
use mathlib.Core.List.{Permᴰ}
use processkit_py.Common.{
  ℕ, zero, suc, ◌≡◌, ◌≢◌, ◌∙◌, ap, refl, sym, subst, Option, some, none, List, [], ◌∷◌, set, All,
  map, replicate, unwrap_or,
}
use processkit_py.Batch.{Slot, Item, item_slot, fill, missing, collect_in_input_order}

module _ {ℓ} {A : Type ℓ} where
  set-set_ne :
      (xs : List A) (i j : ℕ) (v w : A) → i ≢ j → set (set xs i v) j w ≡ set (set xs j w) i v
  set-set_ne [] i j v w h = refl
  set-set_ne (x ∷ xs) zero zero v w h = absurd (h refl)
  set-set_ne (x ∷ xs) zero (suc j) v w h = refl
  set-set_ne (x ∷ xs) (suc i) zero v w h = refl
  set-set_ne (x ∷ xs) (suc i) (suc j) v w h =
      ap (λ (l : List A). x ∷ l) (set-set_ne xs i j v w (λ e. h (ap suc e)))

  All-perm : (P : A → Type 0) {xs ys : List A} → Permᴰ xs ys → All P xs → All P ys
  All-perm P Permᴰ.nil h = h
  All-perm P (Permᴰ.cons e p) h = (subst P e h.0, All-perm P p h.1)
  All-perm P (Permᴰ.swap e f) h = (subst P f h.1.0, (subst P e h.0, h.1.1))
  All-perm P (Permᴰ.trans p q) h = All-perm P q (All-perm P p h)

module _ {T E : Type 0} where
  abbrev Other : Item T E → Item T E → Type 0
  Other x y = y.index ≢ x.index

  -- No two items have the same index.
  abbrev pub Distinct : List (Item T E) → Type 0
  Distinct [] = Unit
  Distinct (x ∷ items) = All (Other x) items × Distinct items

  Distinct-perm : {xs ys : List (Item T E)} → Permᴰ xs ys → Distinct xs → Distinct ys
  Distinct-perm Permᴰ.nil h = h
  Distinct-perm (Permᴰ.cons {a = a} {l₂ = ys} e p) h =
      (subst (λ x. All (Other x) ys) e (All-perm (Other a) p h.0), Distinct-perm p h.1)
  Distinct-perm (Permᴰ.swap {a = a} {b = b} {b' = b'} {l = l} e f) h =
      subst (λ y. Distinct (y ∷ b' ∷ l)) f
        (subst (λ x. Distinct (b ∷ x ∷ l)) e ((λ same. h.0.0 (sym same), h.1.0), (h.0.1, h.1.1)))
  Distinct-perm (Permᴰ.trans p q) h = Distinct-perm q (Distinct-perm p h)

  fill-perm :
      {xs ys : List (Item T E)}
      → Permᴰ xs ys
      → Distinct xs
      → (slots : List (Option (Slot T E))) → fill xs slots ≡ fill ys slots
  unfolding fill
  fill-perm Permᴰ.nil h slots = refl
  fill-perm (Permᴰ.cons e p) h slots = rw e (fill-perm p h.1 _)
  fill-perm (Permᴰ.swap {a = a} {b = b} {l = l} e f) h slots =
      rw (← e, ← f)
        (ap (fill l) (
          set-set_ne slots a.index b.index (some (item_slot a)) (some (item_slot b))
            (λ same. h.0.0 (sym same))))
  fill-perm (Permᴰ.trans p q) h slots = fill-perm p h slots ∙ fill-perm q (Distinct-perm p h) slots

  -- If each command is reported at most once, the results are the same in whatever order the
  -- commands finish.
  collect_in_input_order-perm :
      {xs ys : List (Item T E)} (total : ℕ)
      → Permᴰ xs ys
      → Distinct xs
      → collect_in_input_order xs total ≡ collect_in_input_order ys total
  unfolding collect_in_input_order
  collect_in_input_order-perm total p h =
      ap (map (λ slot. unwrap_or slot missing)) (fill-perm p h (replicate total none))
