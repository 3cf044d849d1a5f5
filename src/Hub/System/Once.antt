-- ===== src/Hub/System/Once.antt =====
-- src/runtime.rs: how often the hub deals with the Future of an operation.
use processkit_py.Common.{
  ℕ, ◌+◌, ◌≤◌, ◌≡◌, some, List, [], ◌∷◌, ◌++◌, inl, inr, arith, insert, remove, Option-cases,
}
use processkit_py.Hub.{
  HubEntry, values, register, cancel, wake, publish_enqueue, idle_flag, take_ready, close,
  has_entries,
}
use processkit_py.Hub.Delivery.{count_future, count-collect_ready-le, count-values-remove-le}
use processkit_py.Hub.System.{
  Sys, Event, registers, publishes, writes, receives, wakes, idles, cancels, cancel_wakes, refuses,
  dropped, received, task_cancelled, receive_failed, call_soon_failed, fire, run, boot,
}

-- How often the events register an operation whose Future is `f`.
abbrev pub registrations : ℕ → List Event → ℕ
registrations f [] = 0
registrations f (registers e ∷ evs) = count_future f (e ∷ []) + registrations f evs
registrations f (ev ∷ evs) = registrations f evs

-- The hub's dealings with the Future `f` so far, and those that it may still have.
abbrev settled : ℕ → Sys → ℕ
settled f s = count_future f s.completed + count_future f s.cancelled

abbrev accounted : ℕ → Sys → ℕ
accounted f s = settled f s + count_future f (values s.entries)

count_future-append :
    (f : ℕ) (xs ys : List HubEntry)
    → count_future f (xs ++ ys) ≡ count_future f xs + count_future f ys
count_future-append f [] ys = omega arith
count_future-append f (x ∷ xs) ys = omega (arith, count_future-append f xs ys)

abbrev registered : ℕ → Event → ℕ
registered f ev = registrations f (ev ∷ [])

fire-accounted :
    (f : ℕ) (ev : Event) (s t : Sys)
    → fire ev s ≡ some t
    → accounted f t ≤ accounted f s + registered f ev
unfolding fire register cancel wake publish_enqueue idle_flag take_ready close has_entries insert
fire-accounted f (registers e) s t h = ground (arith, count-values-remove-le f s.next_id s.entries)
fire-accounted f (publishes id) s t h = ground arith
fire-accounted f (writes b) s t h = ground arith
fire-accounted f receives s t h = ground arith
fire-accounted f (wakes received) s t h = ground (
  arith,
  count-collect_ready-le f s.ready s.entries,
  count_future-append f s.completed (take_ready s.hub).1,
  count_future-append f s.cancelled [],
)
fire-accounted f (wakes task_cancelled) s t h = ground (
  arith,
  count_future-append f s.completed [],
  count_future-append f s.cancelled (values s.entries),
)
fire-accounted f (wakes receive_failed) s t h = ground (
  arith,
  count-collect_ready-le f s.ready s.entries,
  count_future-append f s.completed (take_ready s.hub).1,
  count_future-append f s.cancelled (values (take_ready s.hub).0.entries),
)
fire-accounted f (wakes call_soon_failed) s t h = ground (
  arith,
  count-collect_ready-le f s.ready s.entries,
  count_future-append f s.completed (take_ready s.hub).1,
  count_future-append f s.cancelled (values (take_ready s.hub).0.entries),
)
fire-accounted f (idles b) s t h = ground (
  arith,
  count_future-append f s.completed [],
  count_future-append f s.cancelled [],
  count_future-append f s.cancelled (values s.entries),
)
fire-accounted f (cancels id) s t h = ground (arith, count-values-remove-le f id s.entries)
fire-accounted f cancel_wakes s t h = ground arith
fire-accounted f (refuses id) s t h = ground (arith, count-values-remove-le f id s.entries)
fire-accounted f dropped s t h = ground arith

registrations-cons :
    (f : ℕ) (ev : Event) (evs : List Event)
    → registrations f (ev ∷ evs) ≡ registered f ev + registrations f evs
registrations-cons f (registers e) evs = omega arith
registrations-cons f _ evs = omega arith

boot-accounted : (f : ℕ) (e : HubEntry) → accounted f (boot e) ≡ count_future f (e ∷ [])
unfolding boot register insert remove
boot-accounted f e = ground arith

run-accounted :
    (f : ℕ) (evs : List Event) (s t : Sys)
    → run evs s ≡ some t
    → accounted f t ≤ accounted f s + registrations f evs
unfolding run
run-accounted f [] s t h = ground arith
run-accounted f (ev ∷ evs) s t h = elim (Option-cases (fire ev s)) [
  | inl stuck ↦ ground arith
  | inr (s', fired) ↦ omega (
    arith,
    registrations-cons f ev evs,
    fire-accounted f ev s s' fired,
    run-accounted f evs s' t (ground arith),
  )
]

-- Along every interleaving from the creation of the hub for the operation `e`, the hub resolves or
-- cancels a Future at most as often as an operation with that Future was registered; in particular
-- at most once, if each operation has a Future of its own.
pub futures_settled_once :
    (f : ℕ) (e : HubEntry) (evs : List Event) (t : Sys)
    → run evs (boot e) ≡ some t
    → count_future f t.completed + count_future f t.cancelled ≤ registrations f (registers e ∷ evs)
futures_settled_once f e evs t h = omega (
  arith,
  run-accounted f evs (boot e) t h,
  boot-accounted f e,
  registrations-cons f (registers e) evs,
)
