-- ===== src/Supervision/Outcome.antt =====
-- src/supervisor.rs, lines 101 to 113 and 315 to 410: the outcome of a supervision, with its equality and
-- its hash. `R` is the crate's result of a run.
use processkit_py.Common.{
  ℕ, ◌≡◌, ap, Bool, true, ◌&&◌, ◌==◌, Option, List, [], ◌∷◌, ◌++◌, arith, Text, codes, text_eq,
  text_eq-eq,
}
use processkit_py.Results.Hashing.{Fed, code_or_signal, flag, number, text}
use processkit_py.Sink.{PyInt}

-- `StopReason`; `later` is one that is not known here.
pub data StopReason : Type 0 where
  policy_satisfied predicate restarts_exhausted gave_up unhealthy stopped later : StopReason

unfoldable pub stop_reason_str : StopReason → Text
stop_reason_str policy_satisfied = codes "policy_satisfied"
stop_reason_str predicate = codes "predicate"
stop_reason_str restarts_exhausted = codes "restarts_exhausted"
stop_reason_str gave_up = codes "gave_up"
stop_reason_str unhealthy = codes "unhealthy"
stop_reason_str stopped = codes "stopped"
stop_reason_str later = codes "unknown"

-- The crate's outcome, and the wrapper.
pub record CrateSupervision (R : Type 0) : Type 0 where
  pub final_result : R
  pub restarts : ℕ
  pub stopped : StopReason
  pub storm_pauses : ℕ
  pub liveness_kills : ℕ

pub record SupervisionOutcome (R : Type 0) : Type 0 where
  pub final_result : R
  pub restarts : ℕ
  pub stopped : Text
  pub storm_pauses : ℕ
  pub liveness_kills : ℕ

unfoldable pub convert_supervision_outcome :
    {R : Type 0} → CrateSupervision R → SupervisionOutcome R
unfolding stop_reason_str
convert_supervision_outcome o = record {
  final_result = o.final_result;
  restarts = o.restarts;
  stopped = stop_reason_str o.stopped;
  storm_pauses = o.storm_pauses;
  liveness_kills = o.liveness_kills;
}

-- The crate's `ProcessResult`: its equality, and what it shows.
pub record CrateResult (R : Type 0) : Type 0 where
  pub same : R → R → Bool
  pub program : R → Text
  pub stdout : R → Text
  pub stderr : R → Text
  pub code : R → Option PyInt
  pub signal : R → Option PyInt
  pub timed_out : R → Bool

module _ {R : Type 0} (crate : CrateResult R) where
  -- `ProcessResult.__hash__`, and that of `BytesResult`
  unfoldable pub feed_result : R → List Fed
  feed_result r =
      text (crate.program r)
      ∷ text (crate.stdout r)
      ∷ text (crate.stderr r)
      ∷ code_or_signal (crate.code r)
      ∷ code_or_signal (crate.signal r)
      ∷ flag (crate.timed_out r)
      ∷ []

  unfoldable pub supervision_eq : SupervisionOutcome R → SupervisionOutcome R → Bool
  supervision_eq a b =
      crate.same a.final_result b.final_result
      && a.restarts == b.restarts
      && text_eq a.stopped b.stopped
      && a.storm_pauses == b.storm_pauses
      && a.liveness_kills == b.liveness_kills

  unfoldable pub feed_supervision : SupervisionOutcome R → List Fed
  unfolding feed_result
  feed_supervision o =
      feed_result o.final_result
      ++ number o.restarts ∷ text o.stopped ∷ number o.storm_pauses ∷ number o.liveness_kills ∷ []

  -- Results that are equal show the same; what is compared besides is not shown.
  pub record ShowsEqual : Type 0 where
    pub shown : (a b : R) → crate.same a b ≡ true → feed_result a ≡ feed_result b

  -- Outcomes of a supervision that are `==` have the same hash, whatever the hasher.
  pub feed_supervision-eq :
      ShowsEqual
      → (hasher : List Fed → ℕ) (a b : SupervisionOutcome R) → supervision_eq a b ≡ true
      → hasher (feed_supervision a) ≡ hasher (feed_supervision b)
  unfolding supervision_eq feed_supervision
  feed_supervision-eq laws hasher a b h =
      ap hasher
        (ground (arith, laws.shown a.final_result b.final_result, text_eq-eq a.stopped b.stopped))
