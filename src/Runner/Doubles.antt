-- ===== src/Runner/Doubles.antt =====
-- src/runner.rs, lines 610 to 637, 783 to 898, 1021 to 1064, 1211 to 1231 and 1252 to 1330: the test
-- doubles. A double is an `Arc` behind a lock; a call clones it and keeps the clone until it ends, and
-- so does an object that is given the double as its runner, until it lets it go.
use processkit_py.Common.{
  ℕ, ◌+◌, ◌≡◌, ◌≢◌, ◌⊎◌, refl, Bool, true, false, ◌||◌, Option, none, some, List, [], ◌∷◌, inl, inr,
  ◌==◌, if◌then◌else◌, Result, ok, err, remove, insert, arith,
}
use processkit_py.Errors.{PyErr, process_error, value_error, type_error}

-- An `Arc`: the identity of its allocation, and the runner in it.
pub record Shared (R : Type 0) : Type 0 where
  pub id : ℕ
  pub runner : R

-- `clones` are those of the calls in flight, and of the objects that were given the double as their
-- runner; each call and each object has a number of its own.
pub record Double (R : Type 0) : Type 0 where
  pub guard : Shared R
  pub clones : List (ℕ × Shared R)
  pub next_id : ℕ

-- `only_call` and `only_command`, on the calls so far
unfoldable pub only_call : {A : Type 0} → List A → Result PyErr A
only_call (a ∷ []) = ok a
only_call calls = err process_error

-- `record` and `replay`, before the crate is called: whether a scrubber is given, and callable.
unfoldable pub check_scrub : Option Bool → Result PyErr (Unit {0})
check_scrub none = ok tt
check_scrub (some callable) = if callable then ok tt else err type_error

pub data Action (R : Type 0) : Type 0 where
  begins ends extracts releases : ℕ → Action R
  reconfigures : (R → R) → Action R

module _ {R : Type 0} where
  unfoldable pub fresh : R → Double R
  fresh r = record { guard = record { id = 0; runner = r }; clones = []; next_id = 1 }

  -- Whether an allocation has a clone, besides the guard's own reference.
  unfoldable pub cloned : ℕ → List (ℕ × Shared R) → Bool
  cloned id [] = false
  cloned id ((call, arc) ∷ m) = arc.id == id || cloned id m

  -- `runner()`, at the beginning of a call, and the end of the call.
  unfoldable pub begin_call : ℕ → Double R → Double R
  unfolding insert
  begin_call call d = record d { clones = insert call d.guard d.clones }

  unfoldable pub end_call : ℕ → Double R → Double R
  unfolding remove
  end_call call d = record d { clones = remove call d.clones }

  -- `extract_runner`, for a `CliClient`, a `Supervisor`, a `RecordingRunner` or a batch, and the end of
  -- what holds its answer.
  unfoldable pub hand_out : ℕ → Double R → Double R
  unfolding insert
  hand_out holder d = record d { clones = insert holder d.guard d.clones }

  unfoldable pub release : ℕ → Double R → Double R
  unfolding remove
  release holder d = record d { clones = remove holder d.clones }

  -- `reconfigure`, all of which is under the lock: `Arc::try_unwrap` fails if there is a clone, and the
  -- original is put back.
  unfoldable pub reconfigure : (R → R) → Double R → Double R × Result PyErr (Unit {0})
  unfolding cloned
  reconfigure build d = if cloned d.guard.id d.clones then (d, err process_error) else (
    record d {
      guard = record { id = d.next_id; runner = build d.guard.runner };
      next_id = d.next_id + 1;
    },
    ok tt,
  )

  -- `ScriptedRunner.on_sequence`; `borrowed` is what borrowing the replies gives.
  unfoldable pub on_sequence :
      {B : Type 0}
      → List B
      → Result PyErr (List B)
      → (List B → R → R)
      → Double R
      → Double R × Result PyErr (Unit {0})
  unfolding reconfigure
  on_sequence [] borrowed build d = (d, err value_error)
  on_sequence (b ∷ more) (err e) build d = (d, err e)
  on_sequence (b ∷ more) (ok replies) build d = reconfigure (build replies) d

  unfoldable pub act : Action R → Double R → Double R
  unfolding begin_call end_call hand_out release reconfigure
  act (begins call) d = begin_call call d
  act (ends call) d = end_call call d
  act (extracts holder) d = hand_out holder d
  act (releases holder) d = release holder d
  act (reconfigures build) d = (reconfigure build d).0

  unfoldable pub acts : List (Action R) → Double R → Double R
  unfolding act
  acts [] d = d
  acts (a ∷ more) d = acts more (act a d)

  -- Every clone is one of this `Arc`.
  abbrev pub Holds : Shared R → List (ℕ × Shared R) → Type 0
  Holds guard [] = Unit {0}
  Holds guard ((call, arc) ∷ m) = (arc ≡ guard) × Holds guard m

  fresh-Holds : (r : R) → Holds (fresh r).guard (fresh r).clones
  unfolding fresh
  fresh-Holds r = tt

  kept-Holds :
      (guard arc : Shared R) (call : ℕ) (b : Bool) (m : List (ℕ × Shared R))
      → arc ≡ guard
      → Holds guard m
      → Holds guard (if b then m else (call, arc) ∷ m)
  kept-Holds guard arc call true m e h = h
  kept-Holds guard arc call false m e h = (e, h)

  remove-Holds :
      (guard : Shared R) (call : ℕ) (m : List (ℕ × Shared R))
      → Holds guard m
      → Holds guard (remove call m)
  unfolding remove
  remove-Holds guard call [] h = tt
  remove-Holds guard call ((c, arc) ∷ m) h =
      kept-Holds guard arc c (c == call) (remove call m) h.0 (remove-Holds guard call m h.1)

  cloned-own :
      (guard arc : Shared R) (call : ℕ) (m : List (ℕ × Shared R))
      → arc ≡ guard
      → cloned guard.id ((call, arc) ∷ m) ≡ true
  unfolding cloned
  cloned-own guard arc call m e = ground arith

  reconfigure-Holds :
      (build : R → R) (guard : Shared R) (m : List (ℕ × Shared R)) (next_id : ℕ)
      → Holds guard m
      → let d : Double R = record { guard = guard; clones = m; next_id = next_id } in
        Holds (reconfigure build d).0.guard (reconfigure build d).0.clones
  unfolding reconfigure
  reconfigure-Holds build guard [] next_id h = tt
  reconfigure-Holds build guard ((call, arc) ∷ m) next_id h = rw (cloned-own guard arc call m h.0) h

  act-Holds :
      (a : Action R) (d : Double R)
      → Holds d.guard d.clones
      → Holds (act a d).guard (act a d).clones
  unfolding act begin_call end_call hand_out release insert
  act-Holds (begins call) d h = (refl, remove-Holds d.guard call d.clones h)
  act-Holds (ends call) d h = remove-Holds d.guard call d.clones h
  act-Holds (extracts holder) d h = (refl, remove-Holds d.guard holder d.clones h)
  act-Holds (releases holder) d h = remove-Holds d.guard holder d.clones h
  act-Holds (reconfigures build) d h = reconfigure-Holds build d.guard d.clones d.next_id h

  acts-Holds :
      (todo : List (Action R)) (d : Double R)
      → Holds d.guard d.clones
      → Holds (acts todo d).guard (acts todo d).clones
  unfolding acts
  acts-Holds [] d h = h
  acts-Holds (a ∷ todo) d h = acts-Holds todo (act a d) (act-Holds a d h)

  reconfigure-Refused :
      (build : R → R) (guard : Shared R) (m : List (ℕ × Shared R)) (next_id : ℕ)
      → Holds guard m
      → let d : Double R = record { guard = guard; clones = m; next_id = next_id } in
        ((m ≡ [])
          × ((reconfigure build d).1 ≡ ok tt)
          × ((reconfigure build d).0.guard.runner ≡ build guard.runner))
        ⊎ ((m ≢ []) × (reconfigure build d ≡ (d, err process_error)))
  unfolding reconfigure
  reconfigure-Refused build guard [] next_id h = inl (refl, refl, refl)
  reconfigure-Refused build guard ((call, arc) ∷ m) next_id h =
      inr (ground arith, rw (cloned-own guard arc call m h.0) refl)

  -- Whatever calls have begun and ended, whatever objects have been given a new double as their runner
  -- and let it go, and however it has been reconfigured, every call in flight and every such object
  -- holds the very runner that the double has now; and a reconfiguration succeeds and rebuilds that
  -- runner if no call is in flight and no object holds the double, and otherwise raises a
  -- `ProcessError` and changes nothing.
  pub in_flight_current :
      (todo : List (Action R)) (r : R) (build : R → R)
      → let d = acts todo (fresh r) in
        Holds d.guard d.clones
        × (((d.clones ≡ [])
              × ((reconfigure build d).1 ≡ ok tt)
              × ((reconfigure build d).0.guard.runner ≡ build d.guard.runner))
            ⊎ ((d.clones ≢ []) × (reconfigure build d ≡ (d, err process_error))))
  in_flight_current todo r build =
      let d = acts todo (fresh r) in
      let h = acts-Holds todo (fresh r) (fresh-Holds r) in
      (h, reconfigure-Refused build d.guard d.clones d.next_id h)
