-- ===== src/Running/Tail/Verdict.antt =====
-- src/running.rs: the end and the verdict of the tail probe.
use native.Mathlib.Nat.{add-zero, add-suc, suc-add}
use processkit_py.Common.{
  ℕ, zero, suc, ◌+◌, ◌-◌, ◌*◌, ◌/◌, ◌≤◌, ◌<◌, ◌≡◌, ◌≢◌, ◌⊎◌, inl, inr, Option, none, some, min,
  arith, ◌==◌, Text, Result, err, Option-cases, Bool-cases,
}
use processkit_py.Errors.{PyErr, wait_timeout}
use processkit_py.Running.Tail.{
  World, look, tail_poll_interval, test_look, probe, probe_partial_tail, clamp_timeout,
}

-- The end of the sleep of round `i`, which begins at `now`.
abbrev slept : World → ℕ → ℕ → ℕ → ℕ
slept w deadline i now =
    let looked = now + w.took i in looked + min tail_poll_interval (deadline - looked) + w.late i

pub probe-ends :
    (w : World) (deadline fuel i now : ℕ)
    → deadline - now < (fuel - 1) * tail_poll_interval + 1
    → 0 < fuel
    → probe w deadline fuel i now ≢ none
unfolding probe
probe-ends w deadline zero i now h p = absurd (omega arith)
probe-ends w deadline (suc zero) i now h p = ground arith
probe-ends w deadline (suc (suc fuel)) i now h p =
    ground (arith, probe-ends w deadline (suc fuel) (suc i) (slept w deadline i now))

-- The probe ends for every timeout, whatever the world does: the clamped timeout divided by the
-- poll interval, and two rounds more, are enough fuel.
pub probe_partial_tail-ends :
    (w : World) (timeout start fuel : ℕ)
    → clamp_timeout timeout / tail_poll_interval + 2 ≤ fuel
    → probe_partial_tail w timeout start fuel ≢ none
unfolding probe_partial_tail
probe_partial_tail-ends w timeout start fuel h =
    probe-ends w (start + clamp_timeout timeout) fuel 0 start (omega arith) (omega arith)

-- The look of round `i` and the matcher.
abbrev pub test_round : World → ℕ → Option (Result PyErr Text)
test_round w i = test_look (w.matches i) (look w i)

-- `n` rounds from round `i` on, which begins at `now`, decide nothing and are over before the
-- deadline.
abbrev pub QuietRounds : World → ℕ → ℕ → ℕ → ℕ → Type 0
QuietRounds w deadline i now zero = Unit
QuietRounds w deadline i now (suc n) =
    (test_round w i ≡ none)
    × (now + w.took i < deadline)
    × QuietRounds w deadline (suc i) (slept w deadline i now) n

-- The time at which the `n`-th round after round `i` begins; it looks and asks the matcher first.
abbrev pub time_after : World → ℕ → ℕ → ℕ → ℕ → ℕ
time_after w deadline i now zero = now
time_after w deadline i now (suc n) = time_after w deadline (suc i) (slept w deadline i now) n

-- After `n` rounds that decide nothing before the deadline: a look that decides, or one more that does
-- not and that, with its matcher, is over at or past the deadline.
abbrev pub Verdict : World → ℕ → ℕ → ℕ → Result PyErr Text → Type 0
Verdict w deadline i now r =
    (n : ℕ) × QuietRounds w deadline i now n
    × ((test_round w (i + n) ≡ some r)
        ⊎ ((test_round w (i + n) ≡ none)
            × (r ≡ err wait_timeout)
            × (deadline ≤ time_after w deadline i now n + w.took (i + n))))

pub probe-Verdict :
    (w : World) (deadline fuel i now : ℕ) (r : Result PyErr Text)
    → probe w deadline fuel i now ≡ some r
    → Verdict w deadline i now r
unfolding probe
probe-Verdict w deadline zero i now r h = cc
probe-Verdict w deadline (suc fuel) i now r h = elim (Option-cases (test_round w i)) [
  | inr (q, decided) ↦ (0, tt, inl (rw add-zero (ground arith)))
  | inl quiet ↦ elim (Bool-cases (deadline - (now + w.took i) == 0)) [
    | inl late ↦ (0, tt, inr (rw add-zero quiet, ground arith, rw add-zero (ground arith)))
    | inr early ↦
        let (n, before, verdict) =
          probe-Verdict w deadline fuel (suc i) (slept w deadline i now) r (ground arith) in
        (suc n, (quiet, ground arith, before), rw (add-suc, ← suc-add) verdict)
  ]
]

pub probe_partial_tail-first :
    (w : World) (timeout start fuel : ℕ) (r : Result PyErr Text)
    → probe_partial_tail w timeout start fuel ≡ some r
    → Verdict w (start + clamp_timeout timeout) 0 start r
unfolding probe_partial_tail
probe_partial_tail-first w timeout start fuel r h =
    probe-Verdict w (start + clamp_timeout timeout) fuel 0 start r h
