-- ===== src/Runner/Capture.antt =====
-- src/runner.rs, lines 86 to 172 and 320 to 441: a verb with a sink of its own.
use processkit_py.Common.{
  ◌≡◌, ◌∙◌, ap, refl, Option, none, some, List, [], ◌∷◌, ◌++◌, Result, err, arith, Text,
}
use processkit_py.Errors.{PyErr}
use processkit_py.Runner.{
  Sinks, CassetteField, Scrub, finalizing, fails, replaces, command_predicate, cassette_scrubber,
  scrubbed, field_name,
}
use processkit_py.Supervision.{Answer, detached, unbuilt, raises, answers}

-- What the future of a verb does with callbacks: it asks a predicate; it has a field scrubbed; it
-- runs another verb, which has a sink of its own; it ends.
pub data Future : Type 0 where
  ends : Future
  asks : Answer → Future → Future
  scrubs : (Text → Text → Scrub) → CassetteField → Text → Future → Future
  nests : Future → Future → Future

reported : Option PyErr → List PyErr → List PyErr
reported none rest = rest
reported (some e) rest = e ∷ rest

-- `scope_when` leaves the inner sink behind.
unfoldable pub leave_scope : Sinks → Sinks
leave_scope [] = []
leave_scope (sink ∷ outer) = outer

-- `take_when_error`, on the innermost sink
unfoldable pub take_when_error : Sinks → Option PyErr
take_when_error [] = none
take_when_error (sink ∷ outer) = sink

-- The future, polled to its end: the sinks, and what the unraisable hook was given.
unfoldable pub run_future : Future → Sinks → Sinks × List PyErr
unfolding reported command_predicate cassette_scrubber leave_scope
run_future ends sinks = (sinks, [])
run_future (asks answer f) sinks =
    let r = command_predicate answer sinks in let s = run_future f r.0 in (s.0, reported r.1 s.1)
run_future (scrubs callback field text f) sinks =
    let r = cassette_scrubber callback field text sinks in
    let s = run_future f r.0 in (s.0, reported r.1 s.1)
run_future (nests inner f) sinks =
    let r = run_future inner (none ∷ sinks) in
    let s = run_future f (leave_scope r.0) in (s.0, r.1 ++ s.1)

module _ {A : Type 0} where
  prefer : Option PyErr → Result PyErr A → Result PyErr A
  prefer none result = result
  prefer (some e) result = err e

  -- `with_when_capture_sync`, `with_when_capture_async` and `scope_when_capture`: `result` is what the
  -- future itself gives.
  unfoldable pub with_when_capture : Future → Result PyErr A → Sinks → Sinks × Result PyErr A
  unfolding run_future take_when_error leave_scope prefer
  with_when_capture f result sinks =
      let r = run_future f (none ∷ sinks) in (leave_scope r.0, prefer (take_when_error r.0) result)

or_later : Option PyErr → Option PyErr → Option PyErr
or_later none later = later
or_later (some e) later = some e

answer_error : Answer → Option PyErr
answer_error detached = none
answer_error (unbuilt e) = some e
answer_error (raises e) = some e
answer_error (answers b) = none

scrub_error : Scrub → Option PyErr
scrub_error finalizing = none
scrub_error (fails e) = some e
scrub_error (replaces text) = none

-- The first error of a verb's own callbacks; those of the verbs that it runs are not its own.
unfoldable pub first_error : Future → Option PyErr
unfolding or_later answer_error scrub_error
first_error ends = none
first_error (asks answer f) = or_later (answer_error answer) (first_error f)
first_error (scrubs callback field text f) =
    or_later (scrub_error (callback (field_name field) text)) (first_error f)
first_error (nests inner f) = first_error f

or_later_assoc : (a b c : Option PyErr) → or_later (or_later a b) c ≡ or_later a (or_later b c)
unfolding or_later
or_later_assoc none b c = refl
or_later_assoc (some e) b c = refl

scrubbed-sinks :
    (w : Scrub) (sink : Option PyErr) (outer : Sinks)
    → ((scrubbed w (sink ∷ outer)).0 ≡ or_later sink (scrub_error w) ∷ outer)
      × ((scrubbed w (sink ∷ outer)).1 ≡ none)
unfolding scrubbed or_later scrub_error
scrubbed-sinks finalizing none outer = (refl, refl)
scrubbed-sinks finalizing (some e) outer = (refl, refl)
scrubbed-sinks (fails e) none outer = (refl, refl)
scrubbed-sinks (fails e) (some d) outer = (refl, refl)
scrubbed-sinks (replaces text) none outer = (refl, refl)
scrubbed-sinks (replaces text) (some e) outer = (refl, refl)

prefer-lem :
    {A : Type 0} (o : Option PyErr) (result : Result PyErr A)
    → prefer o result ≡ (elim o [ some e ↦ err e | none ↦ result ])
unfolding prefer
prefer-lem none result = refl
prefer-lem (some e) result = refl

run_future-sinks :
    (f : Future) (sink : Option PyErr) (outer : Sinks)
    → run_future f (sink ∷ outer) ≡ (or_later sink (first_error f) ∷ outer, [])
unfolding run_future first_error
run_future-sinks ends none outer = refl
run_future-sinks ends (some e) outer = refl
run_future-sinks (asks detached f) sink outer = ground (arith, run_future-sinks f sink outer)
run_future-sinks (asks (unbuilt e) f) none outer = ground (arith, run_future-sinks f (some e) outer)
run_future-sinks (asks (unbuilt e) f) (some d) outer =
    ground (arith, run_future-sinks f (some d) outer)
run_future-sinks (asks (raises e) f) none outer = ground (arith, run_future-sinks f (some e) outer)
run_future-sinks (asks (raises e) f) (some d) outer =
    ground (arith, run_future-sinks f (some d) outer)
run_future-sinks (asks (answers b) f) sink outer = ground (arith, run_future-sinks f sink outer)
run_future-sinks (scrubs callback field text f) sink outer =
    let w = callback (field_name field) text in
    let seen = scrubbed-sinks w sink outer in
    ground (
      arith,
      seen.0,
      seen.1,
      run_future-sinks f (or_later sink (scrub_error w)) outer,
      or_later_assoc sink (scrub_error w) (first_error f),
    )
run_future-sinks (nests inner f) sink outer =
    ground (arith, run_future-sinks inner none (sink ∷ outer), run_future-sinks f sink outer)

-- A verb raises the first error of its own callbacks, and gives the future's own result only if none
-- of them failed; the errors of callbacks of verbs that ran within it are not its own. It leaves the
-- sinks of the verbs around it alone, and nothing is given to the unraisable hook.
pub with_when_capture-raises_first :
    {A : Type 0} (f : Future) (result : Result PyErr A) (sinks : Sinks)
    → (with_when_capture f result sinks
        ≡ (sinks, elim (first_error f) [ some e ↦ err e | none ↦ result ]))
      × ((run_future f (none ∷ sinks)).1 ≡ [])
unfolding with_when_capture or_later first_error
with_when_capture-raises_first f result sinks = (
  ap (λ r. (leave_scope r.0, prefer (take_when_error r.0) result)) (run_future-sinks f none sinks)
      ∙ ap (λ r. (sinks, r)) (prefer-lem (first_error f) result),
  ap (λ r. r.1) (run_future-sinks f none sinks),
)
