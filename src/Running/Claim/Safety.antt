-- ===== src/Running/Claim/Safety.antt =====
-- src/running.rs, lines 806 to 829 and 1097 to 1126: who holds the run while claims race.
use processkit_py.Common.{
  ℕ, ◌+◌, ◌≤◌, ◌≡◌, ◌⊎◌, Bool, true, false, Option, none, some, arith, length,
}
use processkit_py.Running.{JointFinish, not_started, running}
use processkit_py.Running.Claim.{
  Race, Claimer, at_recheck, returned, Event, begins, publishes, claims, other_joint, other_process,
  fire, boot, Reach, start, next,
}

abbrev pub holds {ℓ} : {A : Type ℓ} → Option A → ℕ
holds none = 0
holds (some a) = 1

module _ {P : Type 0} where
  abbrev pub published : JointFinish P → ℕ
  published (running p) = 1
  published f = 0

  abbrev pub claimed : Claimer P → ℕ
  claimed (returned c) = holds c
  claimed c = 0

  -- The number of claims that have returned the run.
  abbrev pub claims_made : Race P → ℕ
  claims_made s = claimed s.claimer + length s.others

  abbrev past_process : Claimer P → Bool
  past_process at_recheck = true
  past_process (returned none) = true
  past_process c = false

  record Inv (s : Race P) : Type 0 where
    conserved : holds s.inner + holds s.in_hand + published s.finish + claims_made s ≡ 1
    locked : (s.in_hand ≡ none) ⊎ (s.finish ≡ not_started)
    passed : past_process s.claimer ≡ true → s.inner ≡ none
    empty_handed : s.claimer ≡ returned none → length s.others ≡ 1

  boot-Inv : (p : P) → Inv (boot p)
  unfolding boot
  boot-Inv p = ground arith

  fire-Inv : (ev : Event) (s t : Race P) → Inv s → fire ev s ≡ some t → Inv t
  unfolding fire
  fire-Inv begins s t i h = ground arith
  fire-Inv publishes s t i h = ground arith
  fire-Inv claims s t i h = ground arith
  fire-Inv other_joint s t i h = ground arith
  fire-Inv other_process s t i h = ground arith

  Reach-Inv : {p : P} {s : Race P} → Reach p s → Inv s
  Reach-Inv {p} start = boot-Inv p
  Reach-Inv (next {s} {t} ev r h) = fire-Inv ev s t (Reach-Inv r) h

  -- Whatever the interleaving with the events stream's finisher and with other threads' claims, the
  -- run is claimed at most once; until it is claimed, exactly one of the process slot, the finisher
  -- at work and the finish slot holds it.
  pub claim_exclusive :
      {p : P} {s : Race P}
      → Reach p s
      → (claims_made s ≤ 1)
        × (claims_made s ≡ 0 → holds s.inner + holds s.in_hand + published s.finish ≡ 1)
  claim_exclusive r = ground (arith, Reach-Inv r)

  -- Whatever the interleaving, a claim comes back empty only if another thread's claim has returned
  -- the run: the publication race with the events stream's finisher makes no claim miss it.
  pub claim-misses_nothing :
      {p : P} {s : Race P} → Reach p s → s.claimer ≡ returned none → length s.others ≡ 1
  claim-misses_nothing r h = (Reach-Inv r).empty_handed h
