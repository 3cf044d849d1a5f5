-- ===== src/Group.antt =====
-- src/group.rs, lines 254 to 328, 410 to 700: `ProcessGroup`, whose operations take a clone of the
-- group out of the slot, work on it, and drop it, while other threads do the same. An `Event` is a
-- section under the slot's lock, or the end of an operation. `G` is the crate's group.
pub mod Lifetime
pub mod Methods
pub mod Reports
mod Tests
use processkit_py.Common.{
  ℕ, suc, ◌-◌, ◌≡◌, Option, none, some, ◌==◌, ltb, if◌then◌else◌, Result, ok, err,
}
use processkit_py.Errors.{PyErr, process_error}

-- `held` counts the clones of the group, and the group itself once it was taken out for teardown;
-- `torn` counts the teardowns, `updated` the replacements of the limits.
pub record GroupState (G : Type 0) : Type 0 where
  pub inner : Option G
  pub held : ℕ
  pub torn : ℕ
  pub updated : ℕ

pub data Event : Type 0 where
  begins ends updates shuts_down : Event

module _ {G : Type 0} where
  unfoldable pub opened : G → GroupState G
  opened g = record { inner = some g; held = 0; torn = 0; updated = 0 }

  -- `PyProcessGroup::group`: every verb begins with it.
  unfoldable pub group : GroupState G → GroupState G × Result PyErr G
  group s = elim s.inner [
    | none ↦ (s, err process_error)
    | some g ↦ (record s { held = suc s.held }, ok g)
  ]

  -- `take`
  unfoldable pub take : GroupState G → GroupState G × Option G
  take s = elim s.inner [
    | none ↦ (s, none)
    | some g ↦ (record s { inner = none; held = suc s.held }, some g)
  ]

  -- `update_limits`, up to the crate's call: `Arc::get_mut` needs the only reference.
  unfoldable pub update_limits : GroupState G → GroupState G × Result PyErr (Unit {0})
  update_limits s = elim s.inner [
    | none ↦ (s, err process_error)
    | some g ↦
        if s.held == 0
        then (record s { updated = suc s.updated }, ok tt)
        else (s, err process_error)
  ]

  count_teardown : GroupState G × Option G → GroupState G
  count_teardown (s, none) = s
  count_teardown (s, some g) = record s { torn = suc s.torn }

  -- `shutdown`, `ashutdown` and the exits, past their guard: a closed group is left alone.
  unfoldable pub shutdown : GroupState G → GroupState G × Result PyErr (Unit {0})
  unfolding take count_teardown
  shutdown s = (count_teardown (take s), ok tt)

  -- The end of an operation drops what it holds.
  unfoldable pub fire : Event → GroupState G → Option (GroupState G)
  unfolding group update_limits shutdown
  fire begins s = some (group s).0
  fire ends s = if ltb 0 s.held then some (record s { held = s.held - 1 }) else none
  fire updates s = some (update_limits s).0
  fire shuts_down s = some (shutdown s).0

  pub data Reach (g : G) : GroupState G → Type 0 where
    start : Reach g (opened g)
    next : {s t : GroupState G} (ev : Event) → Reach g s → fire ev s ≡ some t → Reach g t
