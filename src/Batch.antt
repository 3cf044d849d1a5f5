-- ===== src/Batch.antt =====
-- src/batch.rs: batch runs, whose results come back in the order of the commands. `T` is the result
-- of a run, `E` the crate's error; an exception that a predicate raised is a `PyErr`.
pub mod Order
pub mod Schedule
mod Tests
use processkit_py.Common.{
  ℕ, zero, suc, Option, none, some, List, [], ◌∷◌, map, set, replicate, unwrap_or, ltb,
  if◌then◌else◌, Result, ok, err,
}
use processkit_py.Errors.{PyErr, value_error}
use processkit_py.Sink.{PyInt, nonnegative, negative}

pub data Slot (T E : Type 0) : Type 0 where
  predicate_error : PyErr → Slot T E
  result : Result E T → Slot T E

-- `resolve_concurrency`; `cpus` is `available_parallelism`, where it is known. The integer fits an
-- `i64`: an argument that does not is refused before the call.
unfoldable pub resolve_concurrency : ℕ → Option ℕ → Option PyInt → Result PyErr ℕ
resolve_concurrency usize_max cpus none = ok (unwrap_or cpus 4)
resolve_concurrency usize_max cpus (some (negative n)) = err value_error
resolve_concurrency usize_max cpus (some (nonnegative zero)) = err value_error
resolve_concurrency usize_max cpus (some (nonnegative (suc n))) =
    if ltb usize_max (suc n) then err value_error else ok (suc n)

-- An item of the crate's stream, with what `take_completed_error` finds when it arrives.
pub record Item (T E : Type 0) : Type 0 where
  pub index : ℕ
  pub outcome : Result E T
  pub captured : Option PyErr

module _ {T E : Type 0} where
  slot_of : Option PyErr → Result E T → Slot T E
  slot_of (some e) r = predicate_error e
  slot_of none r = result r

  unfoldable pub item_slot : Item T E → Slot T E
  unfolding slot_of
  item_slot i = slot_of i.captured i.outcome

  -- The loop over the stream; an index out of range is dropped.
  unfoldable pub fill : List (Item T E) → List (Option (Slot T E)) → List (Option (Slot T E))
  fill [] slots = slots
  fill (i ∷ items) slots = fill items (set slots i.index (some (item_slot i)))

  abbrev pub missing : Slot T E
  missing = predicate_error value_error

  unfoldable pub collect_in_input_order : List (Item T E) → ℕ → List (Slot T E)
  unfolding fill
  collect_in_input_order items total =
      map (λ slot. unwrap_or slot missing) (fill items (replicate total none))

-- An entry of the list that Python gets: a result, or the exception as a value. `map_err` is the
-- conversion of the crate's error.
pub data Entry (T : Type 0) : Type 0 where
  value : T → Entry T
  exception : PyErr → Entry T

unfoldable pub to_entry : {T E : Type 0} → (E → PyErr) → Slot T E → Entry T
to_entry map_err (predicate_error e) = exception e
to_entry map_err (result (ok t)) = value t
to_entry map_err (result (err e)) = exception (map_err e)

-- `output_all` and its siblings, after their arguments are resolved.
unfoldable pub output_all :
    {T E : Type 0}
    → (E → PyErr)
    → ℕ
    → Option ℕ
    → Option PyInt
    → List (Item T E)
    → ℕ
    → Result PyErr (List (Entry T))
unfolding collect_in_input_order to_entry resolve_concurrency
output_all map_err usize_max cpus concurrency items total =
    elim (resolve_concurrency usize_max cpus concurrency) [
      | err e ↦ err e
      | ok n ↦ ok (map (to_entry map_err) (collect_in_input_order items total))
    ]
