-- ===== src/Hub/Delivery.antt =====
-- src/runtime.rs, lines 386 to 393: what `take_ready` hands over and what it leaves.
use processkit_py.Common.{
  ℕ, ◌+◌, ◌≤◌, ◌≡◌, ◌⊎◌, inr, refl, true, Option, none, some, List, [], ◌∷◌, ◌++◌, arith, ◌==◌,
  if◌then◌else◌, lookup, remove, lookup-remove, contains,
}
use processkit_py.Hub.{HubEntry, collect_ready, values}

-- How many entries of a list belong to a Future.
abbrev pub count_future : ℕ → List HubEntry → ℕ
count_future f [] = 0
count_future f (e ∷ l) = (if e.future == f then 1 else 0) + count_future f l

pub count-values-remove-le :
    (f k : ℕ) (m : List (ℕ × HubEntry))
    → count_future f (values (remove k m)) ≤ count_future f (values m)
unfolding remove
count-values-remove-le f k [] = omega arith
count-values-remove-le f k ((j, v) ∷ m) = ground (arith, count-values-remove-le f k m)

abbrev count_found : ℕ → Option HubEntry → ℕ
count_found f none = 0
count_found f (some e) = count_future f (e ∷ [])

count-lookup-remove :
    (f k : ℕ) (m : List (ℕ × HubEntry))
    → count_found f (lookup k m) + count_future f (values (remove k m)) ≤ count_future f (values m)
unfolding lookup remove
count-lookup-remove f k [] = omega arith
count-lookup-remove f k ((j, w) ∷ m) =
    ground (arith, count-values-remove-le f k m, count-lookup-remove f k m)

-- A registered operation is handed over, or left, at most as often as it was registered.
pub count-collect_ready-le :
    (f : ℕ) (ids : List ℕ) (m : List (ℕ × HubEntry))
    → count_future f (collect_ready ids m).0 + count_future f (values (collect_ready ids m).1)
      ≤ count_future f (values m)
unfolding collect_ready
count-collect_ready-le f [] m = omega arith
count-collect_ready-le f (k ∷ ids) m =
    ground (arith, count-collect_ready-le f ids (remove k m), count-lookup-remove f k m)

-- What is left is what was not published.
pub lookup-collect_ready :
    (ids : List ℕ) (m : List (ℕ × HubEntry)) (j : ℕ)
    → lookup j (collect_ready ids m).1 ≡ (if contains j ids then none else lookup j m)
unfolding collect_ready contains
lookup-collect_ready [] m j = refl
lookup-collect_ready (k ∷ ids) m j =
    ground (arith, lookup-collect_ready ids (remove k m) j, lookup-remove k j m)

abbrev pub Has : HubEntry → List HubEntry → Type 0
Has e [] = ⊥
Has e (d ∷ l) = (d ≡ e) ⊎ Has e l

-- A published entry is handed over.
pub collect_ready-Has :
    (ids : List ℕ) (m : List (ℕ × HubEntry)) (j : ℕ) (e : HubEntry)
    → contains j ids ≡ true
    → lookup j m ≡ some e
    → Has e (collect_ready ids m).0
unfolding collect_ready contains
collect_ready-Has [] m j e c h = cc
collect_ready-Has (k ∷ ids) m j e c h =
    ground (arith, collect_ready-Has ids (remove k m) j e, lookup-remove k j m)

pub Has-append : (xs ys : List HubEntry) (e : HubEntry) → Has e ys → Has e (xs ++ ys)
Has-append [] ys e h = h
Has-append (x ∷ xs) ys e h = inr (Has-append xs ys e h)
