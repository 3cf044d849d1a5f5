-- ===== src/Results/Hashing.antt =====
-- src/result.rs and src/supervisor.rs, the methods `__eq__` and `__hash__`: a hash is what the hasher
-- makes of the values that it is fed in turn. The crate's equalities and its hasher are parameters.
use processkit_py.Common.{
  ℕ, ◌≡◌, ◌↔◌, subst, Bool, true, false, ◌&&◌, ◌==◌, Option, none, some, is_some, List, [], ◌∷◌,
  ◌++◌, arith, Text, text_eq, text_eq-eq, text_eq_refl,
}
use processkit_py.Results.{CrateOutcome, Finished, LifecycleEvent, OutputEvent, kind_name}
use processkit_py.Sink.{PyInt}

-- A value that the hasher is fed.
pub data Fed : Type 0 where
  code_or_signal : Option PyInt → Fed
  flag : Bool → Fed
  number : ℕ → Fed
  optional_number : Option ℕ → Fed
  text : Text → Fed
  optional_text : Option Text → Fed

same_number : Option ℕ → Option ℕ → Bool
same_number none none = true
same_number (some m) (some n) = m == n
same_number x y = false

same_text : Option Text → Option Text → Bool
same_text none none = true
same_text (some s) (some t) = text_eq s t
same_text x y = false

same_flag : Bool → Bool → Bool
same_flag true b = b
same_flag false true = false
same_flag false false = true

unfoldable pub output_eq : OutputEvent → OutputEvent → Bool
unfolding same_flag
output_eq a b = same_flag a.is_stderr b.is_stderr && text_eq a.text b.text

unfoldable pub feed_output : OutputEvent → List Fed
feed_output e = flag e.is_stderr ∷ text e.text ∷ []

-- `==` on the outcome of an event, by `==` on outcomes
same_option : {A : Type 0} → (A → A → Bool) → Option A → Option A → Bool
same_option eq none none = true
same_option eq (some a) (some b) = eq a b
same_option eq x y = false

module _ {O : Type 0} (crate : CrateOutcome O) (same : O → O → Bool) where
  -- `Outcome.__hash__`
  unfoldable pub feed_outcome : O → List Fed
  feed_outcome o =
      code_or_signal (crate.code o)
      ∷ code_or_signal (crate.signal o)
      ∷ flag (crate.timed_out o)
      ∷ []

  unfoldable pub finished_eq : Finished O → Finished O → Bool
  finished_eq a b = same a.outcome b.outcome && text_eq a.stderr b.stderr

  unfoldable pub feed_finished : Finished O → List Fed
  unfolding feed_outcome
  feed_finished f = feed_outcome f.outcome ++ text f.stderr ∷ []

  unfoldable pub lifecycle_eq : LifecycleEvent O → LifecycleEvent O → Bool
  unfolding kind_name same_number same_text same_option
  lifecycle_eq a b =
      text_eq (kind_name a.kind) (kind_name b.kind)
      && same_number a.pid b.pid
      && same_text a.text b.text
      && same_option same a.outcome b.outcome

  feed_terminal : Option O → List Fed
  unfolding feed_outcome
  feed_terminal none = []
  feed_terminal (some o) = feed_outcome o

  unfoldable pub feed_lifecycle : LifecycleEvent O → List Fed
  unfolding kind_name feed_terminal
  feed_lifecycle e =
      text (kind_name e.kind)
      ∷ optional_number e.pid
      ∷ optional_text e.text
      ∷ flag (is_some e.outcome)
      ∷ feed_terminal e.outcome

  -- The crate's equality of outcomes is that of what they show.
  pub record IsStructural : Type 0 where
    pub shown :
        (a b : O)
        → same a b ≡ true ↔ (
            (crate.code a ≡ crate.code b)
            × (crate.signal a ≡ crate.signal b)
            × (crate.timed_out a ≡ crate.timed_out b))

text_eq_iff : (s t : Text) → text_eq s t ≡ true ↔ (s ≡ t)
text_eq_iff s t = (text_eq-eq s t, λ p. subst (λ u. text_eq s u ≡ true) p (text_eq_refl s))

same_number_iff : (x y : Option ℕ) → same_number x y ≡ true ↔ (x ≡ y)
unfolding same_number
same_number_iff none none = ground arith
same_number_iff none (some n) = ground arith
same_number_iff (some m) none = ground arith
same_number_iff (some m) (some n) = ground arith

same_text_iff : (x y : Option Text) → same_text x y ≡ true ↔ (x ≡ y)
unfolding same_text
same_text_iff none none = ground arith
same_text_iff none (some t) = ground arith
same_text_iff (some s) none = ground arith
same_text_iff (some s) (some t) = ground (arith, text_eq_iff s t)

feed_output_iff : (a b : OutputEvent) → output_eq a b ≡ true ↔ (feed_output a ≡ feed_output b)
unfolding output_eq feed_output same_flag
feed_output_iff a b = ground (arith, text_eq_iff a.text b.text)

module _ {O : Type 0} (crate : CrateOutcome O) (same : O → O → Bool) where
  module _ (structural : IsStructural crate same) where
    feed_outcome_iff :
        (a b : O) → same a b ≡ true ↔ (feed_outcome crate same a ≡ feed_outcome crate same b)
    unfolding feed_outcome
    feed_outcome_iff a b = ground (arith, structural.shown a b)

    feed_terminal_iff :
        (a b : Option O)
        → same_option same a b ≡ true
          ↔ ((is_some a ≡ is_some b) × (feed_terminal crate same a ≡ feed_terminal crate same b))
    unfolding same_option feed_terminal
    feed_terminal_iff none none = ground arith
    feed_terminal_iff none (some b) = ground arith
    feed_terminal_iff (some a) none = ground arith
    feed_terminal_iff (some a) (some b) = ground (arith, feed_outcome_iff a b)

    feed_lifecycle_iff :
        (a b : LifecycleEvent O)
        → lifecycle_eq crate same a b ≡ true
          ↔ (feed_lifecycle crate same a ≡ feed_lifecycle crate same b)
    unfolding lifecycle_eq feed_lifecycle
    feed_lifecycle_iff a b = ground (
      arith,
      text_eq_iff (kind_name a.kind) (kind_name b.kind),
      same_number_iff a.pid b.pid,
      same_text_iff a.text b.text,
      feed_terminal_iff a.outcome b.outcome,
    )

    feed_finished_iff :
        (a b : Finished O)
        → finished_eq crate same a b ≡ true
          ↔ (feed_finished crate same a ≡ feed_finished crate same b)
    unfolding finished_eq feed_finished feed_outcome
    feed_finished_iff a b =
        ground (arith, structural.shown a.outcome b.outcome, text_eq_iff a.stderr b.stderr)

    -- Two outcomes, ends of runs, lines or lifecycle events are `==` exactly if the hasher is fed the
    -- same values in the same order for both, if the crate's outcomes are `==` exactly when they show
    -- the same; so equal values have the same hash.
    pub eq_iff_fed :
        (o p : O) (f g : Finished O) (l m : OutputEvent) (d e : LifecycleEvent O)
        → (same o p ≡ true ↔ (feed_outcome crate same o ≡ feed_outcome crate same p))
          × (finished_eq crate same f g ≡ true
              ↔ (feed_finished crate same f ≡ feed_finished crate same g))
          × (output_eq l m ≡ true ↔ (feed_output l ≡ feed_output m))
          × (lifecycle_eq crate same d e ≡ true
              ↔ (feed_lifecycle crate same d ≡ feed_lifecycle crate same e))
    eq_iff_fed o p f g l m d e =
        (feed_outcome_iff o p, feed_finished_iff f g, feed_output_iff l m, feed_lifecycle_iff d e)
