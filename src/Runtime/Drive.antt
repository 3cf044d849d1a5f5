-- ===== src/Runtime/Drive.antt =====
-- src/runtime.rs, lines 119 to 229 and 964 to 971: the work of an awaitable, and the converter that it
-- hands over to the loop's thread; `block_on`, of the verbs that block. A boxed converter is what its
-- `convert` gives, once it is called there.
use mathlib.Core.Option
use processkit_py.Common.{
  ℕ, ◌≡◌, ◌≢◌, refl, Bool, false, Option, some, List, [], ◌∷◌, ◌++◌, Result, ok, err, ◌>>=◌, map_ok,
  map_error,
}
use processkit_py.Errors.{PyErr, process_error}
use processkit_py.Runtime.{
  Turn, done, idle_turns, block_on_interruptible, block_on_interruptible-cases,
}
use processkit_py.Runtime.Lazy.{LazyState, pending}

abbrev pub CompletionConverter : Type 0
CompletionConverter = Unit {0} → Result PyErr ℕ

-- `ConvertCompletion::convert`
abbrev pub convert_completion : CompletionConverter → Result PyErr ℕ
convert_completion converter = converter tt

module _ {T : Type 0} where
  -- `IntoPyConverter` and `WithPyConverter`
  abbrev pub into_py_converter : (T → Result PyErr ℕ) → T → CompletionConverter
  into_py_converter into_py value = λ u. into_py value

  abbrev pub with_py_converter : (T → Result PyErr ℕ) → T → CompletionConverter
  with_py_converter convert value = λ u. convert value

  -- The work of the awaitable; `fut` is what the future gives.
  unfoldable pub drive_async :
      {C : Type 0}
      → (C → PyErr)
      → (T → Result PyErr ℕ)
      → Result C T
      → Result PyErr CompletionConverter
  drive_async map_err into_py fut = map_ok (into_py_converter into_py) (map_error map_err fut)

  unfoldable pub drive_async_py :
      (T → Result PyErr ℕ) → Result PyErr T → Result PyErr CompletionConverter
  drive_async_py into_py fut = map_ok (into_py_converter into_py) fut

  unfoldable pub drive_async_py_convert :
      (T → Result PyErr ℕ) → Result PyErr T → Result PyErr CompletionConverter
  drive_async_py_convert convert fut = map_ok (with_py_converter convert) fut

  -- Nothing is converted if the future raises.
  pub drive_async_py_convert-converts :
      (convert : T → Result PyErr ℕ) (fut : Result PyErr T)
      → (drive_async_py_convert convert fut >>= convert_completion) ≡ (fut >>= convert)
  unfolding drive_async_py_convert
  drive_async_py_convert-converts convert (ok value) = refl
  drive_async_py_convert-converts convert (err e) = refl

  pub drive_async_py-converts :
      (into_py : T → Result PyErr ℕ) (fut : Result PyErr T)
      → (drive_async_py into_py fut >>= convert_completion) ≡ (fut >>= into_py)
  unfolding drive_async_py
  drive_async_py-converts into_py (ok value) = refl
  drive_async_py-converts into_py (err e) = refl

-- `lazy_bridge`
abbrev pub lazy_bridge : {W F : Type 0} → W → LazyState W F
lazy_bridge work = pending work

-- `block_on`, over the turns of its loop; `none` means that it is still waiting.
unfoldable pub block_on :
    {C U : Type 0} → (C → PyErr) → ℕ → ℕ → Bool → List (Turn (Result C U)) → Option (Result PyErr U)
unfolding block_on_interruptible
block_on map_err me owner inside turns =
    Option.map (λ driven. driven >>= λ r. map_error map_err r)
      (block_on_interruptible me owner inside turns)

-- In the process that owns the runtime, on a thread outside of it, a blocking verb gives what its future
-- gives, its error mapped, after any number of poll intervals; an awaitable verb hands over a converter
-- of the same value, or the same exception.
pub drive_async-block_on :
    {C U : Type 0} (map_err : C → PyErr) (into_py : U → Result PyErr ℕ) (owner n : ℕ)
    (r : Result C U)
    → owner ≢ 0
    → Option.map
        (λ driven. driven >>= into_py)
        (block_on map_err owner owner false (idle_turns n ++ done r ∷ []))
      ≡ some (drive_async map_err into_py r >>= convert_completion)
unfolding block_on drive_async
drive_async-block_on {C} {U} map_err into_py owner n (ok value) owned =
    rw
      ((block_on_interruptible-cases {A = Result C U} owner owner n (ok value) process_error []
        owned).0)
      refl
drive_async-block_on {C} {U} map_err into_py owner n (err e) owned =
    rw
      ((block_on_interruptible-cases {A = Result C U} owner owner n (err e) process_error []
        owned).0)
      refl
