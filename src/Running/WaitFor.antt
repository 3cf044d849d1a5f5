-- ===== src/Running/WaitFor.antt =====
-- src/running.rs, lines 1586 to 1697: `wait_for_output` with its twins for stderr and for awaiting. A
-- stream is what the world shows of it.
use processkit_py.Common.{
  ℕ, ◌+◌, ◌/◌, ◌≤◌, ◌≢◌, none, ◌≡◌, refl, inl, inr, Bool, true, Option, some, [], ◌∷◌, ◌++◌, ap,
  Result, ok, err, arith, Text, Bool-cases, Result-cases,
}
use processkit_py.Durations.{F64, nonnegative_duration}
use processkit_py.Errors.{PyErr}
use processkit_py.Running.Openers.{
  Predicate, text, TailMatcher, substring, starts_with, contains_text, matches, extract_matcher,
  tail_probe_args,
}
use processkit_py.Running.Tail
use processkit_py.Running.Tail.{
  max_tail_timeout, tail_poll_interval, clamp_timeout, World, LookPoll, probe, look, test_look,
}
use processkit_py.Running.Tail.Verdict.{Verdict, probe-ends, probe-Verdict}
use processkit_py.Running.Verbs.{Surface, Caller, guard, drive}

-- What the world shows of a stream, and whether the interpreter can be attached in a round.
pub record Stream : Type 0 where
  pub present : ℕ → Bool
  pub seen : ℕ → Option Text
  pub polled : ℕ → LookPoll
  pub attached : ℕ → Bool
  pub took : ℕ → ℕ
  pub late : ℕ → ℕ

abbrev pub world_of : Stream → TailMatcher → World
world_of s m = record {
  present = s.present;
  seen = s.seen;
  polled = s.polled;
  matches = λ i tail. matches m (s.attached i) tail;
  took = s.took;
  late = s.late;
}

-- The arguments first, then the guard, then the driver's; `none` means that the fuel ran out.
probed :
    Surface → Caller → Stream → ℕ → ℕ → Result PyErr (TailMatcher × ℕ) → Option (Result PyErr Text)
unfolding guard drive
probed s c stream start fuel (err e) = some (err e)
probed s c stream start fuel (ok (m, within)) = elim (guard s c) [
  | err e ↦ some (err e)
  | ok u ↦ elim (drive s c within) [
    | err e ↦ some (err e)
    | ok span ↦ probe (world_of stream m) (start + span) fuel 0 start
  ]
]

unfoldable pub wait_for_output :
    Surface → Caller → Stream → Predicate → F64 → ℕ → ℕ → Option (Result PyErr Text)
unfolding probed tail_probe_args
wait_for_output s c stream predicate timeout start fuel =
    probed s c stream start fuel (tail_probe_args predicate timeout)

starts_with-append :
    (needle tail : Text)
    → starts_with needle tail ≡ true
    → (after : Text) × (tail ≡ needle ++ after)
unfolding starts_with
starts_with-append [] tail h = (tail, refl)
starts_with-append (c ∷ needle) [] h = let no_way : ⊥ = ground arith in elim no_way [ ]
starts_with-append (c ∷ needle) (d ∷ tail) h =
    let (after, p) = starts_with-append needle tail (ground arith) in (after, ground arith)

contains_text-append :
    (needle tail : Text)
    → contains_text needle tail ≡ true
    → (before after : Text) × (tail ≡ before ++ needle ++ after)
unfolding contains_text
contains_text-append needle [] h = let (after, p) = starts_with-append needle [] h in ([], after, p)
contains_text-append needle (d ∷ tail) h = elim (Bool-cases (starts_with needle (d ∷ tail))) [
  | inl here ↦ let (after, p) = starts_with-append needle (d ∷ tail) here in ([], after, p)
  | inr later ↦
      let (before, after, p) = contains_text-append needle tail (ground arith) in
      (d ∷ before, after, ap (λ t. d ∷ t) p)
]

test_look-matched :
    (f : Text → Result PyErr Bool) (l : Result PyErr Tail.TailLook) (t : Text)
    → test_look f l ≡ some (ok t)
    → f t ≡ ok true
unfolding test_look
test_look-matched f (err e) t h = ground arith
test_look-matched f (ok l) t h = ground arith

Verdict-matched :
    (w : World) (deadline i now : ℕ) (t : Text)
    → Verdict w deadline i now (ok t)
    → (n : ℕ) × (w.matches n t ≡ ok true)
Verdict-matched w deadline i now t (n, quiet, inl decided) =
    (i + n, test_look-matched (w.matches (i + n)) (look w (i + n)) t decided)
Verdict-matched w deadline i now t (n, quiet, inr late) =
    let no_way : ⊥ = ground arith in elim no_way [ ]

probed-probe :
    (s : Surface) (c : Caller) (stream : Stream) (start fuel within : ℕ) (m : TailMatcher)
    (t : Text)
    → probed s c stream start fuel (ok (m, within)) ≡ some (ok t)
    → (deadline : ℕ) × (probe (world_of stream m) deadline fuel 0 start ≡ some (ok t))
unfolding probed
probed-probe s c stream start fuel within m t h = elim (Result-cases (guard s c)) [
  | inl (e, refused) ↦ let no_way : ⊥ = ground arith in elim no_way [ ]
  | inr (u, let_in) ↦ elim (Result-cases (drive s c within)) [
    | inl (e, forked) ↦ let no_way : ⊥ = ground arith in elim no_way [ ]
    | inr (span, driven) ↦ (start + span, ground arith)
  ]
]

probed-matched :
    (s : Surface) (c : Caller) (stream : Stream) (start fuel within : ℕ) (m : TailMatcher)
    (t : Text)
    → probed s c stream start fuel (ok (m, within)) ≡ some (ok t)
    → (n : ℕ) × (matches m (stream.attached n) t ≡ ok true)
probed-matched s c stream start fuel within m t h =
    let (deadline, ends) = probed-probe s c stream start fuel within m t h in
    Verdict-matched (world_of stream m) deadline 0 start t
      (probe-Verdict (world_of stream m) deadline fuel 0 start (ok t) ends)

-- Rounds that are enough for any timeout.
abbrev pub enough_rounds : ℕ
enough_rounds = max_tail_timeout / tail_poll_interval + 2

probed-ends :
    (s : Surface) (c : Caller) (stream : Stream) (start fuel d : ℕ) (m : TailMatcher)
    → enough_rounds ≤ fuel
    → probed s c stream start fuel (ok (m, clamp_timeout d)) ≢ none
unfolding probed drive
probed-ends s c stream start fuel d m h =
    let within = clamp_timeout d in
    let ends =
      probe-ends (world_of stream m) (start + within) fuel 0 start (omega arith) (omega arith) in
    ground (arith, ends)

wait_for_output-ends :
    (s : Surface) (c : Caller) (stream : Stream) (predicate : Predicate) (timeout : F64)
    (start fuel : ℕ)
    → enough_rounds ≤ fuel
    → wait_for_output s c stream predicate timeout start fuel ≢ none
unfolding wait_for_output tail_probe_args
wait_for_output-ends s c stream predicate timeout start fuel h =
    elim (Result-cases (extract_matcher predicate)) [
      | inl (e, refused) ↦ ground arith
      | inr (m, extracted) ↦ elim (Result-cases (nonnegative_duration timeout)) [
        | inl (e, refused) ↦ ground arith
        | inr (d, accepted) ↦ ground (arith, probed-ends s c stream start fuel d m h)
      ]
    ]

-- A tail that a wait for a text returns, on whatever stream and however it is called, has the text in it.
wait_for_output-found :
    (s : Surface) (c : Caller) (stream : Stream) (needle : Text) (timeout : F64) (start fuel : ℕ)
    (t : Text)
    → wait_for_output s c stream (text needle) timeout start fuel ≡ some (ok t)
    → (before after : Text) × (t ≡ before ++ needle ++ after)
unfolding wait_for_output tail_probe_args extract_matcher matches
wait_for_output-found s c stream needle timeout start fuel t h =
    elim (Result-cases (nonnegative_duration timeout)) [
      | inl (e, refused) ↦ let no_way : ⊥ = ground arith in elim no_way [ ]
      | inr (d, accepted) ↦
          let (n, found) =
            probed-matched s c stream start fuel (clamp_timeout d) (substring needle) t
              (ground arith) in
          contains_text-append needle t (ground arith)
    ]

-- A wait for output ends for every predicate and every timeout, whatever the stream shows and wherever
-- it is called; and a tail that a wait for a text returns has the text in it.
pub wait_for_output-contains :
    (s : Surface) (c : Caller) (stream : Stream) (predicate : Predicate) (timeout : F64)
    (start fuel : ℕ)
    → enough_rounds ≤ fuel
    → (wait_for_output s c stream predicate timeout start fuel ≢ none)
      × ((needle t : Text)
          → wait_for_output s c stream (text needle) timeout start fuel ≡ some (ok t)
          → (before after : Text) × (t ≡ before ++ needle ++ after))
wait_for_output-contains s c stream predicate timeout start fuel h = (
  wait_for_output-ends s c stream predicate timeout start fuel h,
  λ needle t found. wait_for_output-found s c stream needle timeout start fuel t found,
)
