-- ===== src/Running/Getters.antt =====
-- src/running.rs, lines 1026 to 1040 and 1249 to 1317: the getters of `PyRunningProcess`, which read the
-- process in its slot.
use processkit_py.Common.{◌≡◌, refl, Option, none, some, ok, arith}
use processkit_py.Running.{
  Handle, Claimed, joint, started, take_claim, claim, start_joint_finish, IsValid,
}

claim-empties :
    {P : Type 0} (h : Handle P) (c : Claimed P)
    → IsValid h
    → (claim h).1 ≡ ok c
    → (claim h).0.inner ≡ none
unfolding claim take_claim
claim-empties h c valid granted = ground (arith, valid.emptied, granted)

module _ {P V : Type 0} where
  -- A getter whose value the crate always has, as `elapsed_seconds`, and one whose value it may not
  -- have, as `pid`.
  unfoldable pub value_of : (P → V) → Handle P → Option V
  value_of read h = elim (h.inner) [ none ↦ none | some p ↦ some (read p) ]

  unfoldable pub known_value_of : (P → Option V) → Handle P → Option V
  known_value_of read h = elim (h.inner) [ none ↦ none | some p ↦ read p ]

  empty-none : (read : P → V) (h : Handle P) → h.inner ≡ none → value_of read h ≡ none
  unfolding value_of
  empty-none read h e = rw e refl

  -- A getter has a value as long as the process is in its slot, and none after a claim that was granted;
  -- and none once the finisher of an event stream has been given the process, although the handle can
  -- still be claimed then.
  pub value_of-slot :
      (read : P → V) (h : Handle P) (p : P) (c : Claimed P)
      → IsValid h
      → (value_of read (started p) ≡ some (read p))
        × ((claim h).1 ≡ ok c → value_of read (claim h).0 ≡ none)
        × (value_of read (start_joint_finish (started p)).0 ≡ none)
        × ((claim (start_joint_finish (started p)).0).1 ≡ ok (joint p))
  unfolding value_of claim take_claim start_joint_finish started
  value_of-slot read h p c valid =
      (refl, λ granted. empty-none read (claim h).0 (claim-empties h c valid granted), refl, refl)
