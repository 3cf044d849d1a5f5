-- ===== src/Group/Lifetime.antt =====
-- src/group.rs: the group over the interleavings of its operations.
use processkit_py.Common.{ℕ, ◌+◌, ◌≤◌, ◌≡◌, ◌≢◌, ◌⊎◌, ◌↔◌, Option, none, some, arith, ok, err}
use processkit_py.Errors.{process_error}
use processkit_py.Group.{
  GroupState, Event, begins, ends, updates, shuts_down, opened, group, take, update_limits,
  shutdown, fire, Reach, start, next,
}

module _ {G : Type 0} where
  abbrev open_count : Option G → ℕ
  open_count none = 0
  open_count (some g) = 1

  record Inv (g : G) (s : GroupState G) : Type 0 where
    once : open_count s.inner + s.torn ≡ 1
    same : (s.inner ≡ none) ⊎ (s.inner ≡ some g)

  opened-Inv : (g : G) → Inv g (opened g)
  unfolding opened
  opened-Inv g = ground arith

  fire-Inv : (g : G) (ev : Event) (s t : GroupState G) → Inv g s → fire ev s ≡ some t → Inv g t
  unfolding fire group update_limits shutdown take
  fire-Inv g begins s t i h = ground arith
  fire-Inv g ends s t i h = ground arith
  fire-Inv g updates s t i h = ground arith
  fire-Inv g shuts_down s t i h = ground arith

  Reach-Inv : {g : G} {s : GroupState G} → Reach g s → Inv g s
  Reach-Inv {g} start = opened-Inv g
  Reach-Inv {g} (next {s} {t} ev r h) = fire-Inv g ev s t (Reach-Inv r) h

  -- Whatever operations of whatever threads interleave, a group is torn down at most once, and a verb
  -- gets the group that the handle was made with if no teardown has begun, and a `ProcessError` ever
  -- after; a second shutdown succeeds and changes nothing.
  pub group-closes_once :
      {g : G} {s : GroupState G}
      → Reach g s
      → (s.torn ≤ 1)
        × (s.torn ≡ 0 → (group s).1 ≡ ok g)
        × (s.torn ≡ 1 → ((group s).1 ≡ err process_error) × (shutdown s ≡ (s, ok tt)))
  unfolding group shutdown take
  group-closes_once r = ground (arith, Reach-Inv r)

  -- In every reachable state the limits are replaced exactly if the group is open and no operation
  -- holds it; a refused replacement changes nothing and is a `ProcessError`.
  pub update_limits-exclusive :
      {g : G} {s : GroupState G}
      → Reach g s
      → ((update_limits s).1 ≡ ok tt ↔ ((s.torn ≡ 0) × (s.held ≡ 0)))
        × ((update_limits s).1 ≢ ok tt → update_limits s ≡ (s, err process_error))
  unfolding update_limits
  update_limits-exclusive r = ground (arith, Reach-Inv r)
