-- ===== src/Runner/Replies.antt =====
-- src/runner.rs, lines 517 to 535, 900 to 987, 1008 to 1074, 1081 to 1236 and 1300 to 1335: the replies of
-- a scripted runner, what a recording runner has recorded, and the making of a cassette.
use processkit_py.Common.{
  ℕ, ◌≡◌, ◌∙◌, refl, Bool, true, false, Option, none, some, List, [], ◌∷◌, map, if◌then◌else◌,
  Result, ok, err, ◌>>=◌, map_ok, map_error, Text, text_eq, text_eq-eq, text_eq_refl, arith, subst,
  Bool-cases, inl, inr, ap,
}
use processkit_py.Durations.{F64, nonnegative_duration}
use processkit_py.Errors.{PyErr}
use processkit_py.Runner.Doubles.{check_scrub}
use processkit_py.Sink.{PyInt}

-- The crate's `Reply` `R`: its constructors and its builders.
pub record CrateReply (R : Type 0) : Type 0 where
  pub ok_with : Text → R
  pub fail : PyInt → Text → R
  pub timeout : R
  pub signalled : Option PyInt → R
  pub pending : R
  pub lines : List Text → R
  pub with_stdout : Text → R → R
  pub with_stderr : Text → R → R
  pub with_line_delay : ℕ → R → R

-- The static methods of `Reply`, and its builders, each of which gives a new object.
pub data ReplyCall : Type 0 where
  ok_with : Text → ReplyCall
  fail : PyInt → Text → ReplyCall
  timeout pending : ReplyCall
  signalled : Option PyInt → ReplyCall
  lines : List Text → ReplyCall

pub data ReplyStep : Type 0 where
  with_stdout with_stderr : Text → ReplyStep
  with_line_delay : F64 → ReplyStep

module _ {R : Type 0} (crate : CrateReply R) where
  unfoldable pub reply : ReplyCall → R
  reply (ok_with stdout) = crate.ok_with stdout
  reply (fail code stderr) = crate.fail code stderr
  reply timeout = crate.timeout
  reply pending = crate.pending
  reply (signalled signal) = crate.signalled signal
  reply (lines all) = crate.lines all

  unfoldable pub reply_step : ReplyStep → R → Result PyErr R
  reply_step (with_stdout stdout) r = ok (crate.with_stdout stdout r)
  reply_step (with_stderr stderr) r = ok (crate.with_stderr stderr r)
  reply_step (with_line_delay seconds) r =
      map_ok (λ delay. crate.with_line_delay delay r) (nonnegative_duration seconds)

-- `PyDict::set_item`: a key keeps its place.
unfoldable pub set_item : {V : Type 0} → Text → V → List (Text × V) → List (Text × V)
set_item key value [] = (key, value) ∷ []
set_item key value ((k, v) ∷ dict) =
    let rest = set_item key value dict in if text_eq k key then (k, value) ∷ dict else (k, v) ∷ rest

set_all : {V : Type 0} → List (Text × V) → List (Text × V) → List (Text × V)
unfolding set_item
set_all [] dict = dict
set_all ((key, value) ∷ more) dict = set_all more (set_item key value dict)

-- `Invocation.env`; `none` is the removal of a variable.
unfoldable pub invocation_env : List (Text × Option Text) → List (Text × Option Text)
unfolding set_all
invocation_env overrides = set_all overrides []

abbrev pub get_item : {V : Type 0} → Text → List (Text × V) → Option V
get_item key [] = none
get_item key ((k, v) ∷ dict) = if text_eq k key then some v else get_item key dict

-- The value of the last override of a name; `found` is that of an earlier one.
abbrev pub last_override : {V : Type 0} → Text → List (Text × V) → Option V → Option V
last_override name [] found = found
last_override name ((key, value) ∷ more) found =
    last_override name more (if text_eq key name then some value else found)

get_item-set_item :
    {V : Type 0} (name key : Text) (value : V) (dict : List (Text × V))
    → get_item name (set_item key value dict)
      ≡ (if text_eq key name then some value else get_item name dict)
unfolding set_item
get_item-set_item name key value [] = refl
get_item-set_item name key value ((k, v) ∷ dict) = elim (Bool-cases (text_eq k key)) [
  | inl same ↦
      let moved = text_eq-eq k key same in
      rw same (
        subst
          (λ j. (if text_eq k name then some value else get_item name dict) ≡ (
            if text_eq j name
            then some value
            else (if text_eq k name then some v else get_item name dict)))
          moved
          (elim (Bool-cases (text_eq k name)) [
            | inl here ↦ rw here refl
            | inr there ↦ rw there refl
          ]))
  | inr other ↦ elim (Bool-cases (text_eq k name)) [
    | inl here ↦
        let moved = text_eq-eq k name here in
        let apart : text_eq key name ≡ false = elim (Bool-cases (text_eq key name)) [
          | inl both ↦
              let again = text_eq-eq key name both in
              let no_way : ⊥ = ground (arith, text_eq_refl name, other, moved, again) in
              elim no_way [ ]
          | inr apart ↦ apart
        ] in
        rw (other, here, apart) refl
    | inr there ↦ rw (other, there) (get_item-set_item name key value dict)
  ]
]

set_all-last :
    {V : Type 0} (name : Text) (overrides dict : List (Text × V))
    → get_item name (set_all overrides dict) ≡ last_override name overrides (get_item name dict)
unfolding set_all
set_all-last name [] dict = refl
set_all-last name ((key, value) ∷ more) dict =
    set_all-last name more (set_item key value dict)
    ∙ ap (λ found. last_override name more found) (get_item-set_item name key value dict)

-- The dict of an invocation has, for every name, the value of its last override, or its removal.
pub invocation_env-last :
    (name : Text) (overrides : List (Text × Option Text))
    → get_item name (invocation_env overrides) ≡ last_override name overrides none
unfolding invocation_env
invocation_env-last name overrides = set_all-last name overrides []

-- `make_invocation_callback`, and the command builder's `make_line_callback`: what the callback raises,
-- if the interpreter can be attached, goes to the unraisable hook.
unfoldable pub invocation_callback : Bool → Result PyErr (Unit {0}) → List PyErr
invocation_callback false called = []
invocation_callback true (ok u) = []
invocation_callback true (err e) = e ∷ []

module _ {C E : Type 0} (map_err : E → PyErr) where
  scrubbed_with : (C → C) → Option Bool → C → C
  scrubbed_with scrub_with none runner = runner
  scrubbed_with scrub_with (some callable) runner = scrub_with runner

  -- `RecordReplayRunner.record`; `scrub` is whether the argument is callable.
  unfoldable pub record_cassette : C → (C → C) → Option Bool → Result PyErr C
  unfolding check_scrub scrubbed_with
  record_cassette fresh scrub_with scrub =
      check_scrub scrub >>= λ u. ok (scrubbed_with scrub_with scrub fresh)

  -- `RecordReplayRunner.replay`, which loads the cassette
  unfoldable pub replay_cassette : Result E C → (C → C) → Option Bool → Result PyErr C
  unfolding check_scrub scrubbed_with
  replay_cassette loaded scrub_with scrub =
      check_scrub scrub >>= λ u. map_ok (scrubbed_with scrub_with scrub) (map_error map_err loaded)

-- `RecordingRunner.calls`
unfoldable pub calls : {I P : Type 0} → (I → P) → List I → List P
calls invocation recorded = map invocation recorded
