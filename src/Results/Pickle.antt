-- ===== src/Results/Pickle.antt =====
-- src/result.rs, lines 101 to 126 and 641 to 1140: pickling, with what the crate's documentation says
-- of an `Outcome`.
use processkit_py.Common.{
  ◌≡◌, ◌∙◌, ap, sym, refl, Bool, true, false, Bool-cases, Option, none, some, is_some, inl, inr, ok,
  arith,
}
use processkit_py.Results.{
  Reply, timeout, fail, signalled, ready, CrateOutcome, ProcessEvent, started, stdout, stderr,
  exited, other, outcome_fields, LifecycleEvent, Finished, Flat, lifecycle_event, scripted_outcome,
  reduce_outcome, unpickle_outcome, reduce_finished, unpickle_finished, flat_code, flat_signal,
  flat_timed_out, optional_outcome, reduce_lifecycle, unpickle_lifecycle,
}
use processkit_py.Sink.{PyInt}
use processkit_py.Results.Unpickle.{
  outcome_fields_sound, optional_outcome-given, optional_outcome-absent, parse_kind-Fits,
  unpickle_lifecycle-Accepted, reduce_lifecycle-back, event_of,
}

module _ {O : Type 0} (crate : CrateOutcome O) where
  -- A scripted run is ready at once, and gives an outcome that shows these fields.
  abbrev pub Shows : Reply → Option PyInt → Option PyInt → Bool → Type 0
  Shows reply code signal timed_out =
      (o : O) × (crate.scripted reply ≡ ready (ok o))
      × (crate.code o ≡ code)
      × (crate.signal o ≡ signal)
      × (crate.timed_out o ≡ timed_out)

  -- What the documentation of the crate says: what the scripted runner makes of a reply; that an
  -- outcome is a timeout, a code or a signal; and that it is determined by what it shows.
  pub record IsDocumented : Type 0 where
    pub of_timeout : Shows timeout none none true
    pub of_fail : (c : PyInt) → Shows (fail c) (some c) none false
    pub of_signalled : (s : Option PyInt) → Shows (signalled s) none s false
    pub timeout_alone :
        (o : O) → crate.timed_out o ≡ true → (crate.code o ≡ none) × (crate.signal o ≡ none)
    pub code_alone : (o : O) → is_some (crate.code o) ≡ true → crate.signal o ≡ none
    pub determined :
        (o p : O)
        → crate.code o ≡ crate.code p
        → crate.signal o ≡ crate.signal p
        → crate.timed_out o ≡ crate.timed_out p
        → o ≡ p

module _ {O : Type 0} (crate : CrateOutcome O) (documented : IsDocumented crate) where
  scripted_outcome-shows :
      (c s : Option PyInt) (t : Bool)
      → (t ≡ true → (c ≡ none) × (s ≡ none))
      → (is_some c ≡ true → s ≡ none)
      → (o : O) × (scripted_outcome crate c s t ≡ ok o)
        × (crate.code o ≡ c)
        × (crate.signal o ≡ s)
        × (crate.timed_out o ≡ t)
  unfolding scripted_outcome
  scripted_outcome-shows c s true alone one =
      let r = documented.of_timeout in
      (r.0, rw (r.1) refl, r.2 ∙ sym (alone refl).0, r.3 ∙ sym (alone refl).1, r.4)
  scripted_outcome-shows (some c) s false alone one =
      let r = documented.of_fail c in (r.0, rw (r.1) refl, r.2, r.3 ∙ sym (one refl), r.4)
  scripted_outcome-shows none s false alone one =
      let r = documented.of_signalled s in (r.0, rw (r.1) refl, r.2, r.3, r.4)

  scripted_outcome-own :
      (o : O) → scripted_outcome crate (crate.code o) (crate.signal o) (crate.timed_out o) ≡ ok o
  scripted_outcome-own o =
      let r =
        scripted_outcome-shows (crate.code o) (crate.signal o) (crate.timed_out o)
          (documented.timeout_alone o) (documented.code_alone o) in
      r.1 ∙ ap ok (documented.determined r.0 o r.2 r.3 r.4)

  own_fields :
      (o : O) → outcome_fields (reduce_lifecycle crate (lifecycle_event (exited o))) ≡ ok tt
  unfolding outcome_fields reduce_lifecycle lifecycle_event
  own_fields o = ground (arith, documented.timeout_alone o, documented.code_alone o)

  optional_outcome-shows :
      (f : Flat) (o : Option O)
      → outcome_fields f ≡ ok tt
      → optional_outcome crate f ≡ ok o
      → (is_some o ≡ f.has_outcome)
        × (flat_code crate o ≡ f.code)
        × (flat_signal crate o ≡ f.signal)
        × (flat_timed_out crate o ≡ f.timed_out)
  unfolding flat_code flat_signal flat_timed_out
  optional_outcome-shows f o fields h =
      let sound = outcome_fields_sound f fields in
      elim (Bool-cases f.has_outcome) [
        | inl given ↦
            let r =
              scripted_outcome-shows f.code f.signal f.timed_out (sound.1 given) (sound.2 given) in
            let q = optional_outcome-given crate f o r.0 given r.1 h in
            (
              ap is_some q ∙ sym given,
              ap (flat_code crate) q ∙ r.2,
              ap (flat_signal crate) q ∙ r.3,
              ap (flat_timed_out crate) q ∙ r.4,
            )
        | inr absent ↦
            let q = optional_outcome-absent crate f o absent h in
            let bare = sound.0 absent in
            (
              ap is_some q ∙ sym absent,
              ap (flat_code crate) q ∙ sym bare.0,
              ap (flat_signal crate) q ∙ sym bare.1,
              ap (flat_timed_out crate) q ∙ sym bare.2,
            )
      ]

  lifecycle-roundtrip :
      (event : ProcessEvent O)
      → unpickle_lifecycle crate (reduce_lifecycle crate (lifecycle_event event))
        ≡ ok (lifecycle_event event)
  unfolding unpickle_lifecycle reduce_lifecycle lifecycle_event
  lifecycle-roundtrip (started pid) = refl
  lifecycle-roundtrip (stdout line) = refl
  lifecycle-roundtrip (stderr line) = refl
  lifecycle-roundtrip (exited o) = rw (own_fields o, scripted_outcome-own o) refl
  lifecycle-roundtrip other = refl

  -- Pickling an `Outcome`, a `Finished`, or a `LifecycleEvent` that a process event has given, and
  -- unpickling it, gives an equal value, if the crate's `Outcome` is as its documentation says.
  pub unpickle-reduce :
      (o : O) (f : Finished O) (event : ProcessEvent O)
      → (unpickle_outcome crate (reduce_outcome crate o) ≡ ok o)
        × (unpickle_finished crate (reduce_finished crate f) ≡ ok f)
        × (unpickle_lifecycle crate (reduce_lifecycle crate (lifecycle_event event))
            ≡ ok (lifecycle_event event))
  unfolding unpickle_outcome reduce_outcome unpickle_finished reduce_finished
  unpickle-reduce o f event =
      (scripted_outcome-own o, rw (scripted_outcome-own f.outcome) refl, lifecycle-roundtrip event)

  -- `LifecycleEvent._unpickle` accepts nothing but pickled events: whatever arguments it accepts are
  -- those that the event it returns is pickled to, and that event is one that a process event gives.
  pub unpickle_lifecycle-accepts :
      (f : Flat) (e : LifecycleEvent O)
      → unpickle_lifecycle crate f ≡ ok e
      → (reduce_lifecycle crate e ≡ f) × ((event : ProcessEvent O) × (lifecycle_event event ≡ e))
  unpickle_lifecycle-accepts f e h =
      let a = unpickle_lifecycle-Accepted crate f e h in
      let fits = parse_kind-Fits f a.kind a.parsed in
      let shows = optional_outcome-shows f a.outcome a.fields a.rebuilt in
      let event = event_of a.kind f a.outcome fits.1 shows.0 in
      (
        ap (reduce_lifecycle crate) (sym a.result)
            ∙ reduce_lifecycle-back crate a.kind f a.outcome fits.0 shows.0 shows.1 shows.2 shows.3,
        (event.0, event.1 ∙ a.result),
      )
