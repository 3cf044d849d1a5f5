-- ===== src/Runtime/Completion.antt =====
-- src/runtime.rs, lines 233 to 246, 502 to 525 and 815 to 837: the cell that carries an outcome to
-- the loop's thread, and the resolution of the asyncio Future there.
use processkit_py.Common.{
  ℕ, ◌≡◌, ◌≢◌, ◌∙◌, ◌++◌, refl, Bool, true, false, Option, none, some, List, [], ◌∷◌, arith, ◌==◌,
  if◌then◌else◌, Result, ok, err, ◌>>=◌, All,
}
use processkit_py.Errors.{PyErr, process_error, rust_panic}
use processkit_py.Hub.{HubEntry}

pub data CompletionState (A : Type 0) : Type 0 where
  pending : CompletionState A
  ready : Result PyErr A → CompletionState A

-- What an asyncio Future has become; a result is a Python object, by identity.
pub data FutureState : Type 0 where
  waiting : FutureState
  resolved : ℕ → FutureState
  failed : PyErr → FutureState
  cancelled : FutureState

abbrev pub is_done : FutureState → Bool
is_done waiting = false
is_done _ = true

-- The Futures of the loop and the completion cells, by identity.
pub record World (A : Type 0) : Type 0 where
  pub futures : ℕ → FutureState
  pub cells : ℕ → CompletionState A

abbrev pub update {ℓ} : {V : Type ℓ} → (ℕ → V) → ℕ → V → ℕ → V
update f k v j = if k == j then v else f j

-- `set_result` or `set_exception`.
abbrev pub settle : Result PyErr ℕ → FutureState
settle (ok v) = resolved v
settle (err e) = failed e

-- How the task that runs the work ends, as `JoinHandle::await` reports it.
pub data Joined (A : Type 0) : Type 0 where
  completed : Result PyErr A → Joined A
  work_cancelled : Joined A
  panicked : Joined A
  aborted : Joined A

-- None of the entries has the Future or the cell of `e`.
abbrev pub Apart : HubEntry → List HubEntry → Type 0
Apart e es = All (λ d. (d.future ≢ e.future) × (d.completion ≢ e.completion)) es

module _ {A : Type 0} where
  -- What the second task of `start_bridge` stores before it publishes; `none` is no publication.
  unfoldable pub bridge_result : Joined A → Option (Result PyErr A)
  bridge_result (completed r) = some r
  bridge_result work_cancelled = none
  bridge_result panicked = some (err rust_panic)
  bridge_result aborted = some (err process_error)

  unfoldable pub outcome : (A → Result PyErr ℕ) → CompletionState A → Result PyErr ℕ
  outcome convert (ready r) = r >>= convert
  outcome convert pending = err process_error

  -- `convert` is `ConvertCompletion::convert`. The cell is left `Pending`.
  unfoldable pub complete_entry : (A → Result PyErr ℕ) → HubEntry → World A → World A
  unfolding outcome
  complete_entry convert e w = if is_done (w.futures e.future) then w else record w {
    futures = update w.futures e.future (settle (outcome convert (w.cells e.completion)));
    cells = update w.cells e.completion pending;
  }

  -- The loop of `PyHubWakeCallback` over the entries that `take_ready` returned.
  unfoldable pub complete_all : (A → Result PyErr ℕ) → List HubEntry → World A → World A
  unfolding complete_entry
  complete_all convert [] w = w
  complete_all convert (e ∷ es) w = complete_all convert es (complete_entry convert e w)

  -- `*completion.lock() = Ready(result)`
  unfoldable pub store : ℕ → Result PyErr A → World A → World A
  store c r w = record w { cells = update w.cells c (ready r) }

  complete_entry-keeps :
      (convert : A → Result PyErr ℕ) (e : HubEntry) (w : World A) (f : ℕ)
      → is_done (w.futures f) ≡ true
      → (complete_entry convert e w).futures f ≡ w.futures f
  unfolding complete_entry
  complete_entry-keeps convert e w f h = ground arith

  -- A Future that is done, because it was cancelled or resolved before, keeps its state whatever
  -- entries the loop completes.
  pub complete_all-done_kept :
      (convert : A → Result PyErr ℕ) (es : List HubEntry) (w : World A) (f : ℕ)
      → is_done (w.futures f) ≡ true
      → (complete_all convert es w).futures f ≡ w.futures f
  unfolding complete_all
  complete_all-done_kept convert [] w f h = refl
  complete_all-done_kept convert (e ∷ es) w f h =
      let keeps = complete_entry-keeps convert e w f h in
      ground (arith, keeps, complete_all-done_kept convert es (complete_entry convert e w) f)

  pub complete_entry-apart :
      (convert : A → Result PyErr ℕ) (d e : HubEntry) (w : World A)
      → d.future ≢ e.future
      → d.completion ≢ e.completion
      → ((complete_entry convert d w).futures e.future ≡ w.futures e.future)
        × ((complete_entry convert d w).cells e.completion ≡ w.cells e.completion)
  unfolding complete_entry
  complete_entry-apart convert d e w p q = ground arith

  complete_entry-outcome :
      (convert : A → Result PyErr ℕ) (e : HubEntry) (w : World A) (r : Result PyErr A)
      → w.futures e.future ≡ waiting
      → w.cells e.completion ≡ ready r
      → (complete_entry convert e w).futures e.future ≡ settle (r >>= convert)
  unfolding complete_entry
  complete_entry-outcome convert e w r p q = ground arith

  complete_all-reached :
      (convert : A → Result PyErr ℕ) (xs ys : List HubEntry) (e : HubEntry) (w : World A)
      → Apart e xs
      → (v : World A) × (complete_all convert (xs ++ e ∷ ys) w ≡ complete_all convert (e ∷ ys) v)
        × (v.futures e.future ≡ w.futures e.future)
        × (v.cells e.completion ≡ w.cells e.completion)
  unfolding complete_all
  complete_all-reached convert [] ys e w h = (w, refl, refl, refl)
  complete_all-reached convert (x ∷ xs) ys e w h =
      let (f, c) = complete_entry-apart convert x e w h.0.0 h.0.1 in
      let (v, same, f', c') =
        complete_all-reached convert xs ys e (complete_entry convert x w) h.1 in
      (v, same, f' ∙ f, c' ∙ c)

  done-settle-bind :
      (r : Result PyErr A) (convert : A → Result PyErr ℕ) → is_done (settle (r >>= convert)) ≡ true
  done-settle-bind r convert = ground arith

  -- If an operation's Future still waits, its cell holds the outcome `r`, and no entry handled
  -- before it in the same batch shares its Future or its cell, then after the batch the Future is
  -- resolved with the converted value of `r`, or failed with the exception of `r` or of the
  -- conversion.
  pub complete_all-outcome :
      (convert : A → Result PyErr ℕ) (xs ys : List HubEntry) (e : HubEntry) (w : World A)
      (r : Result PyErr A)
      → Apart e xs
      → w.futures e.future ≡ waiting
      → w.cells e.completion ≡ ready r
      → (complete_all convert (xs ++ e ∷ ys) w).futures e.future ≡ settle (r >>= convert)
  unfolding complete_all
  complete_all-outcome convert xs ys e w r apart waits stored =
      let (v, same, f, c) = complete_all-reached convert xs ys e w apart in
      let now = complete_entry-outcome convert e v r (f ∙ waits) (c ∙ stored) in
      let finished : is_done ((complete_entry convert e v).futures e.future) ≡ true =
        rw now (done-settle-bind r convert) in
      rw same
        (complete_all-done_kept convert ys (complete_entry convert e v) e.future finished ∙ now)
