-- ===== src/Supervision/Errors.antt =====
-- src/supervisor.rs: which error of the callbacks a supervision raises.
use processkit_py.Common.{
  ◌≡◌, ◌≢◌, ◌∙◌, ap, refl, true, false, Option, none, some, List, [], ◌∷◌, arith, Result, err,
  map_error,
}
use processkit_py.Errors.{PyErr}
use processkit_py.Supervision.{
  Cells, no_errors, Answer, unbuilt, raises, Attempt, crashed, failed, unknown, Consult, runs,
  stops, gives_up, checks, consult, consult_all, convert_result, stop_condition, give_up_classifier,
  health_probe,
}

-- The error of the last incarnation whose `when` predicate raised; `e` is that of an earlier one.
abbrev pub last_when : Option PyErr → List Consult → Option PyErr
last_when e [] = e
last_when e (runs none ∷ qs) = last_when e qs
last_when e (runs (some e') ∷ qs) = last_when (some e') qs
last_when e (q ∷ qs) = last_when e qs

-- The error that a callback leaves behind, when it is reached.
abbrev pub error_of : Consult → Option PyErr
error_of (stops (some (unbuilt e))) = some e
error_of (stops (some (raises e))) = some e
error_of (gives_up crashed (unbuilt e)) = some e
error_of (gives_up crashed (raises e)) = some e
error_of (gives_up failed (raises e)) = some e
error_of (checks (raises e)) = some e
error_of q = none

abbrev pub or {ℓ} : {A : Type ℓ} → Option A → Option A → Option A
or none d = d
or (some a) d = some a

-- The first error that a callback leaves behind.
abbrev pub first_error : List Consult → Option PyErr
first_error [] = none
first_error (q ∷ qs) = or (error_of q) (first_error qs)

consult_all-completed :
    (qs : List Consult) (c : Cells) → (consult_all qs c).completed ≡ last_when c.completed qs
unfolding consult_all consult
consult_all-completed [] c = refl
consult_all-completed (q ∷ qs) c = ground (arith, consult_all-completed qs (consult q c))

last_when-none : (o : Option PyErr) (qs : List Consult) → last_when o qs ≡ none → o ≡ none
last_when-none o [] h = h
last_when-none o (runs none ∷ qs) h = last_when-none o qs h
last_when-none o (runs (some e) ∷ qs) h = ground (arith, last_when-none (some e) qs h)
last_when-none o (stops user ∷ qs) h = last_when-none o qs h
last_when-none o (gives_up attempt answer ∷ qs) h = last_when-none o qs h
last_when-none o (checks answer ∷ qs) h = last_when-none o qs h

consult-slot :
    (q : Consult) (c : Cells) → c.completed ≡ none → (consult q c).slot ≡ or c.slot (error_of q)
unfolding consult
consult-slot (runs e) c h = ground arith
consult-slot (stops none) c h = ground arith
consult-slot (stops (some answer)) c h = ground arith
consult-slot (gives_up crashed answer) c h = ground arith
consult-slot (gives_up failed answer) c h = ground arith
consult-slot (gives_up unknown answer) c h = ground arith
consult-slot (checks answer) c h = ground arith

last_when-step :
    (q : Consult) (qs : List Consult) (c : Cells)
    → last_when c.completed (q ∷ qs) ≡ none
    → last_when (consult q c).completed qs ≡ none
unfolding consult
last_when-step q qs c h = ground arith

or_assoc : (a b d : Option PyErr) → or (or a b) d ≡ or a (or b d)
or_assoc none b d = refl
or_assoc (some e) b d = refl

consult_all-slot :
    (qs : List Consult) (c : Cells)
    → last_when c.completed qs ≡ none
    → (consult_all qs c).slot ≡ or c.slot (first_error qs)
unfolding consult_all consult
consult_all-slot [] c h = ground arith
consult_all-slot (q ∷ qs) c h =
    let empty = last_when-none c.completed (q ∷ qs) h in
    let later : last_when (consult q c).completed qs ≡ none = last_when-step q qs c h in
    consult_all-slot qs (consult q c) later
    ∙ ap (λ (o : Option PyErr). or o (first_error qs)) (consult-slot q c empty)
    ∙ or_assoc c.slot (error_of q) (first_error qs)

-- Whatever the crate's loop does, in whatever order it consults the callbacks, the supervision
-- raises the last error of a `when` predicate of the runner, if there was one; or else the first
-- error that `stop_when`, `give_up_when` or the health check left behind; and only without any of
-- these does it report the outcome, or the crate's error converted.
pub convert_result-precedence :
    {E O : Type 0} (map_err : E → PyErr) (r : Result E O) (qs : List Consult)
    → convert_result map_err r (consult_all qs no_errors) ≡ elim (last_when none qs) [
      | some e ↦ err e
      | none ↦ elim (first_error qs) [ some e ↦ err e | none ↦ map_error map_err r ]
    ]
unfolding convert_result
convert_result-precedence map_err r qs =
    ground (arith, consult_all-completed qs no_errors, consult_all-slot qs no_errors)

-- A callback that raises, or gives no `bool`, halts the loop: the stop condition and the give-up
-- classifier answer true, and the health check counts as failed; and once a `when` predicate has
-- raised, the stop condition answers true without a call of the caller's predicate.
pub errors_halt :
    (c : Cells) (e : PyErr) (attempt : Attempt)
    → attempt ≢ unknown
    → ((stop_condition (some (raises e)) c).1 ≡ true)
      × ((give_up_classifier attempt (raises e) c).1 ≡ true)
      × ((health_probe (raises e) c).1 ≡ false)
      × ((user : Option Answer)
          → stop_condition user (consult (runs (some e)) c) ≡ (consult (runs (some e)) c, true))
unfolding stop_condition give_up_classifier health_probe consult
errors_halt c e attempt known = ground arith
