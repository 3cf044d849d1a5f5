-- ===== src/Results/Unpickle.antt =====
-- src/result.rs, lines 886 to 940: the steps of unpickling a `LifecycleEvent`.
use processkit_py.Common.{
  ◌≡◌, ◌∙◌, true, false, Result-cases, Option-cases, Option, none, some, is_some, inl, inr, ok,
  arith, codes, text_eq-eq,
}
use processkit_py.Results.{
  CrateOutcome, ProcessEvent, started, stdout, stderr, exited, other, outcome_fields,
  LifecycleEvent, Flat, Kind, kind_name, lifecycle_event, parse_kind, scripted_outcome, flat_code,
  flat_signal, flat_timed_out, optional_outcome, reduce_lifecycle, unpickle_lifecycle,
}

-- The fields that a kind has.
abbrev pub Fits : Kind → Flat → Type 0
Fits Kind.started f = (f.text ≡ none) × (f.has_outcome ≡ false)
Fits Kind.stdout f = (f.pid ≡ none) × (is_some f.text ≡ true) × (f.has_outcome ≡ false)
Fits Kind.stderr f = (f.pid ≡ none) × (is_some f.text ≡ true) × (f.has_outcome ≡ false)
Fits Kind.exited f = (f.pid ≡ none) × (f.text ≡ none) × (f.has_outcome ≡ true)
Fits Kind.unknown f = (f.pid ≡ none) × (f.text ≡ none) × (f.has_outcome ≡ false)

pub parse_kind-Fits :
    (f : Flat) (k : Kind) → parse_kind f ≡ ok k → (f.kind ≡ kind_name k) × Fits k f
unfolding parse_kind kind_name
parse_kind-Fits f Kind.started h = ground (arith, text_eq-eq f.kind (codes "started"))
parse_kind-Fits f Kind.stdout h = ground (arith, text_eq-eq f.kind (codes "stdout"))
parse_kind-Fits f Kind.stderr h = ground (arith, text_eq-eq f.kind (codes "stderr"))
parse_kind-Fits f Kind.exited h = ground (arith, text_eq-eq f.kind (codes "exited"))
parse_kind-Fits f Kind.unknown h = ground (arith, text_eq-eq f.kind (codes "unknown"))

absurd_some : {A : Type 0} (o : Option A) → o ≡ none → is_some o ≡ true → ⊥
absurd_some o h k = ground arith

pub outcome_fields_sound :
    (f : Flat)
    → outcome_fields f ≡ ok tt
    → ((f.has_outcome ≡ false) → (f.code ≡ none) × (f.signal ≡ none) × (f.timed_out ≡ false))
      × ((f.has_outcome ≡ true) → f.timed_out ≡ true → (f.code ≡ none) × (f.signal ≡ none))
      × ((f.has_outcome ≡ true) → is_some f.code ≡ true → f.signal ≡ none)
unfolding outcome_fields
outcome_fields_sound f h = ground arith

module _ {O : Type 0} (crate : CrateOutcome O) where
  pub optional_outcome-given :
      (f : Flat) (o : Option O) (p : O)
      → f.has_outcome ≡ true
      → scripted_outcome crate f.code f.signal f.timed_out ≡ ok p
      → optional_outcome crate f ≡ ok o
      → o ≡ some p
  unfolding optional_outcome
  optional_outcome-given f o p given q h = ground arith

  pub optional_outcome-absent :
      (f : Flat) (o : Option O) → f.has_outcome ≡ false → optional_outcome crate f ≡ ok o → o ≡ none
  unfolding optional_outcome
  optional_outcome-absent f o absent h = ground arith

  -- The steps of an unpickling that raises nothing.
  pub record Accepted (f : Flat) (e : LifecycleEvent O) : Type 0 where
    pub kind : Kind
    pub outcome : Option O
    pub fields : outcome_fields f ≡ ok tt
    pub parsed : parse_kind f ≡ ok kind
    pub rebuilt : optional_outcome crate f ≡ ok outcome
    pub result : record { kind = kind; pid = f.pid; text = f.text; outcome = outcome } ≡ e

  pub unpickle_lifecycle-Accepted :
      (f : Flat) (e : LifecycleEvent O) → unpickle_lifecycle crate f ≡ ok e → Accepted f e
  unfolding unpickle_lifecycle
  unpickle_lifecycle-Accepted f e h = elim (Result-cases (outcome_fields f)) [
    | inl x ↦ let no_way : ⊥ = ground arith in elim no_way [ ]
    | inr fields ↦ elim (Result-cases (parse_kind f)) [
      | inl x ↦ let no_way : ⊥ = ground arith in elim no_way [ ]
      | inr k ↦ elim (Result-cases (optional_outcome crate f)) [
        | inl x ↦ let no_way : ⊥ = ground arith in elim no_way [ ]
        | inr o ↦ record {
          kind = k.0;
          outcome = o.0;
          fields = ground arith;
          parsed = k.1;
          rebuilt = o.1;
          result = ground arith;
        }
      ]
    ]
  ]

  pub reduce_lifecycle-back :
      (k : Kind) (f : Flat) (o : Option O)
      → f.kind ≡ kind_name k
      → is_some o ≡ f.has_outcome
      → flat_code crate o ≡ f.code
      → flat_signal crate o ≡ f.signal
      → flat_timed_out crate o ≡ f.timed_out
      → reduce_lifecycle crate (record { kind = k; pid = f.pid; text = f.text; outcome = o }) ≡ f
  unfolding reduce_lifecycle
  reduce_lifecycle-back k f o named given code signal timed_out = ground arith

module _ {O : Type 0} where
  pub event_of :
      (k : Kind) (f : Flat) (o : Option O)
      → Fits k f
      → is_some o ≡ f.has_outcome
      → (event : ProcessEvent O) × (lifecycle_event event
          ≡ record { kind = k; pid = f.pid; text = f.text; outcome = o })
  unfolding lifecycle_event
  event_of Kind.started f o fits h = elim (Option-cases o) [
    | inl absent ↦ (started f.pid, ground arith)
    | inr outcome ↦ let no_way : ⊥ = ground arith in elim no_way [ ]
  ]
  event_of Kind.stdout f o fits h = elim (Option-cases f.text) [
    | inl absent ↦ elim (absurd_some f.text absent fits.1) [ ]
    | inr line ↦ (stdout line.0, ground arith)
  ]
  event_of Kind.stderr f o fits h = elim (Option-cases f.text) [
    | inl absent ↦ elim (absurd_some f.text absent fits.1) [ ]
    | inr line ↦ (stderr line.0, ground arith)
  ]
  event_of Kind.exited f o fits h = elim (Option-cases o) [
    | inl absent ↦ elim (absurd_some o absent (h ∙ fits.2)) [ ]
    | inr outcome ↦ (exited outcome.0, ground arith)
  ]
  event_of Kind.unknown f o fits h = (other, ground arith)
