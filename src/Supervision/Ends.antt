-- ===== src/Supervision/Ends.antt =====
-- src/supervisor.rs, lines 723 to 812 and 909 to 1034: the calls that drive a supervision to its end, the
-- exits of a session and its status. `ending` is what the crate does with what was taken: the callbacks
-- that it consults from then on, and how it ends.
use processkit_py.Common.{
  ℕ, ◌≡◌, refl, Bool, false, Option, none, some, List, [], ◌∷◌, ◌++◌, Result, ok, err, ◌>>=◌, arith,
  map_error,
}
use processkit_py.Errors.{PyErr, process_error}
use processkit_py.Runtime.{guard_against_fork}
use processkit_py.Running.Verbs.{Surface, sync, async, Caller, guard, drive}
use processkit_py.Running.Verbs.Consume.{Unforked}
use processkit_py.Supervision.{Cells, no_errors, Consult, consult, consult_all, convert_result}
use processkit_py.Supervision.Session.{Obtained, obtains, nothing, take_open, take_if_open}
use processkit_py.Supervision.Errors.{last_when, first_error, convert_result-precedence}

-- The callbacks that the crate consults while a call drives it, what it gives in the end, and the
-- exception of a signal handler, if `check_signals` raises one before that end; only a blocking call
-- looks for signals, and it then drops what it drives.
pub record Ending (E O : Type 0) : Type 0 where
  pub consulted : List Consult
  pub result : Result E O
  pub interrupt : Option PyErr

-- What `block_on` gives once it drives the future.
abbrev blocked : {E O : Type 0} → (E → PyErr) → Ending E O → Result PyErr O
blocked map_err end = elim end.interrupt [ some e ↦ err e | none ↦ map_error map_err end.result ]

module _ {S E O : Type 0} (map_err : E → PyErr) where
  -- `block_on` and `convert_py_result`, or the body of the awaitable with `convert_result`.
  unfoldable pub concluded : Surface → Caller → (S → Ending E O) → Cells → S → Result PyErr O
  unfolding drive convert_result consult_all
  concluded sync c ending cells x = elim (drive sync c x) [
    | err e ↦ convert_result (λ (error : PyErr). error) (err e) cells
    | ok y ↦
        let end = ending y in
        convert_result (λ (error : PyErr). error) (blocked map_err end)
          (consult_all end.consulted cells)
  ]
  concluded async c ending cells x =
      let end = ending x in convert_result map_err end.result (consult_all end.consulted cells)

  ended :
      Surface
      → Caller
      → (S → Ending E O)
      → Cells
      → Option S × Result PyErr (Obtained S)
      → Option S × Result PyErr O
  unfolding concluded
  ended s c ending cells (slot, err e) = (slot, err e)
  ended s c ending cells (slot, ok nothing) = (slot, err process_error)
  ended s c ending cells (slot, ok (obtains x)) = (slot, concluded s c ending cells x)

  -- `run`, `arun`, `wait`, `await_wait`, and `stop` and `astop` once the grace period is known.
  unfoldable pub run_to_end :
      Surface → Caller → (S → Ending E O) → Cells → Option S → Option S × Result PyErr O
  unfolding guard take_open ended
  run_to_end s c ending cells slot = elim (guard s c) [
    | err e ↦ (slot, err e)
    | ok u ↦ ended s c ending cells (take_open slot)
  ]

  unfoldable pub stop :
      Surface
      → Caller
      → Result PyErr ℕ
      → (ℕ → S → Ending E O)
      → Cells
      → Option S
      → Option S × Result PyErr O
  unfolding run_to_end
  stop s c grace stopping cells slot = elim grace [
    | err e ↦ (slot, err e)
    | ok g ↦ run_to_end s c (stopping g) cells slot
  ]

  exited :
      Surface
      → Caller
      → (S → Ending E O)
      → Cells
      → Option S × Result PyErr (Obtained S)
      → Option S × Result PyErr Bool
  unfolding concluded
  exited s c ending cells (slot, err e) = (slot, err e)
  exited s c ending cells (slot, ok nothing) = (slot, ok false)
  exited s c ending cells (slot, ok (obtains x)) =
      (slot, concluded s c ending cells x >>= λ outcome. ok false)

  -- `__exit__` and `__aexit__`; `ending` is that of a stop with a grace period of one second.
  unfoldable pub exit :
      Surface → Caller → (S → Ending E O) → Cells → Option S → Option S × Result PyErr Bool
  unfolding guard take_if_open exited
  exit s c ending cells slot = elim (guard s c) [
    | err e ↦ (slot, err e)
    | ok u ↦ exited s c ending cells (take_if_open slot)
  ]

unfoldable pub status : {S T : Type 0} → (S → T) → Option S → Result PyErr T
status read none = err process_error
status read (some x) = ok (read x)

consult_all-append :
    (qs rs : List Consult) (c : Cells)
    → consult_all (qs ++ rs) c ≡ consult_all rs (consult_all qs c)
unfolding consult_all
consult_all-append [] rs c = refl
consult_all-append (q ∷ qs) rs c = consult_all-append qs rs (consult q c)

-- What a supervision gives that no callback has spoilt: a signal ends a blocking call only.
abbrev unspoilt :
    {E O : Type 0} → Surface → (E → PyErr) → Option PyErr → Result E O → Result PyErr O
unspoilt sync map_err (some e) r = err e
unspoilt sync map_err none (ok o) = ok o
unspoilt sync map_err none (err e) = err (map_err e)
unspoilt async map_err interrupt (ok o) = ok o
unspoilt async map_err interrupt (err e) = err (map_err e)

-- What a supervision raises or gives, after callbacks that were consulted before it was driven.
abbrev pub verdict :
    {E O : Type 0} → Surface → (E → PyErr) → List Consult → Ending E O → Result PyErr O
verdict s map_err before end = elim (last_when none (before ++ end.consulted)) [
  | some e ↦ err e
  | none ↦ elim (first_error (before ++ end.consulted)) [
    | some e ↦ err e
    | none ↦ unspoilt s map_err end.interrupt end.result
  ]
]

map_error-same : {O : Type 0} (r : Result PyErr O) → map_error (λ (error : PyErr). error) r ≡ r
map_error-same (ok o) = refl
map_error-same (err e) = refl

module _ {S E O : Type 0} (map_err : E → PyErr) where
  concluded-verdict :
      (s : Surface) (c : Caller) (ending : S → Ending E O) (before : List Consult) (x : S)
      → Unforked c
      → concluded map_err s c ending (consult_all before no_errors) x
        ≡ verdict s map_err before (ending x)
  unfolding concluded drive guard_against_fork
  concluded-verdict sync c ending before x unforked = ground (
    arith,
    consult_all-append before (ending x).consulted no_errors,
    convert_result-precedence (λ (error : PyErr). error) (blocked map_err (ending x))
        (before ++ (ending x).consulted),
    map_error-same (blocked map_err (ending x)),
  )
  concluded-verdict async c ending before x unforked = ground (
    arith,
    consult_all-append before (ending x).consulted no_errors,
    convert_result-precedence map_err (ending x).result (before ++ (ending x).consulted),
  )

  pub ends-report :
      (s : Surface) (c : Caller) (ending : S → Ending E O) (before : List Consult) (x : S)
      → Unforked c
      → guard s c ≡ ok tt
      → let cells = consult_all before no_errors in
        let reported = verdict s map_err before (ending x) in
        (run_to_end map_err s c ending cells (some x) ≡ (none, reported))
        × ((g : ℕ) → stop map_err s c (ok g) (λ grace. ending) cells (some x) ≡ (none, reported))
        × (exit map_err s c ending cells (some x) ≡ (none, reported >>= λ outcome. ok false))
        × (run_to_end map_err s c ending cells none ≡ (none, err process_error))
        × (exit map_err s c ending cells none ≡ (none, ok false))
        × ((T : Type 0) (read : S → T) → status read none ≡ err process_error)
  unfolding run_to_end stop exit status
  ends-report s c ending before x unforked lets_through =
      let concludes = concluded-verdict s c ending before x unforked in
      (
        ground (arith, lets_through, concludes),
        λ g. ground (arith, lets_through, concludes),
        ground (arith, lets_through, concludes),
        ground (arith, lets_through),
        ground (arith, lets_through),
        λ T read. refl,
      )
