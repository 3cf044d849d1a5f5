-- ===== src/Runtime/Lazy.antt =====
-- src/runtime.rs, lines 885 to 955: the lazily started awaitable.
use processkit_py.Common.{
  ◌≡◌, refl, Option, none, some, List, [], ◌∷◌, ◌++◌, arith, Result, ok, err,
}
use processkit_py.Errors.{PyErr, process_error}

pub data LazyState (W F : Type 0) : Type 0 where
  pending : W → LazyState W F
  started : F → LazyState W F
  spent : LazyState W F

-- What one call of `__await__` meets: the fork guard's verdict, what `start_bridge` returns if it is
-- called, and whether the inner Future's own `__await__` succeeds.
pub record Call (F : Type 0) : Type 0 where
  pub guard : Result PyErr (Unit {0})
  pub bridge : Result PyErr F
  pub iter : Result PyErr (Unit {0})

-- The new state, the Future awaited or the exception, and the work handed to `start_bridge`.
abbrev pub Awaited : Type 0 → Type 0 → Type 0
Awaited W F = LazyState W F × Result PyErr F × Option W

abbrev pub work_of : {W : Type 0} → Option W → List W
work_of none = []
work_of (some w) = w ∷ []

awaits : {F : Type 0} → F → Result PyErr (Unit {0}) → Result PyErr F
awaits f (ok u) = ok f
awaits f (err e) = err e

module _ {W F : Type 0} where
  -- After `start_bridge`: a failure, there or in the inner `__await__`, leaves the state `Spent`.
  bridged : W → Result PyErr F → Result PyErr (Unit {0}) → Awaited W F
  bridged w (err e) it = (spent, err e, some w)
  bridged w (ok f) (err e) = (spent, err e, some w)
  bridged w (ok f) (ok u) = (started f, ok f, some w)

  await_open : Call F → LazyState W F → Awaited W F
  unfolding awaits bridged
  await_open c (started f) = (started f, awaits f c.iter, none)
  await_open c (pending w) = bridged w c.bridge c.iter
  await_open c spent = (spent, err process_error, none)

  guarded : Result PyErr (Unit {0}) → LazyState W F → Awaited W F → Awaited W F
  guarded (err e) s a = (s, err e, none)
  guarded (ok u) s a = a

  unfoldable pub await : Call F → LazyState W F → Awaited W F
  unfolding await_open guarded
  await c s = guarded c.guard s (await_open c s)

  -- The state after the calls, and all the work that they handed over.
  unfoldable pub await_all : List (Call F) → LazyState W F → LazyState W F × List W
  unfolding await
  await_all [] s = (s, [])
  await_all (c ∷ cs) s =
      let (s', _, w) = await c s in let (s'', ws) = await_all cs s' in (s'', work_of w ++ ws)

  abbrev pub unstarted : LazyState W F → List W
  unstarted (pending w) = w ∷ []
  unstarted s = []

  await-work :
      (c : Call F) (s : LazyState W F)
      → work_of (await c s).2 ++ unstarted (await c s).0 ≡ unstarted s
  unfolding await
  await-work c s = ground arith

  -- However often an awaitable is awaited, and however the calls fail, the work that was handed to
  -- `start_bridge` and the work still held are together the work that the awaitable was built with:
  -- nothing is handed over twice.
  pub await_all-work :
      (cs : List (Call F)) (s : LazyState W F)
      → (await_all cs s).1 ++ unstarted (await_all cs s).0 ≡ unstarted s
  unfolding await_all
  await_all-work [] s = refl
  await_all-work (c ∷ cs) s = ground (arith, await-work c s, await_all-work cs (await c s).0)

  abbrev Runs : F → LazyState W F → Type 0
  Runs f s = s ≡ started f

  await_all-started :
      (cs : List (Call F)) (s : LazyState W F) (f : F) → Runs f s → Runs f (await_all cs s).0
  unfolding await_all await
  await_all-started [] s f h = h
  await_all-started (c ∷ cs) s f h = ground (arith, await_all-started cs (await c s).0 f)

  await-started :
      (c : Call F) (s : LazyState W F) (f : F) → (await c s).1 ≡ ok f → Runs f (await c s).0
  unfolding await
  await-started c s f h = ground arith

  -- Once an await has returned the Future `f`, any later await, after any number of others, returns
  -- the same Future and hands over no work, unless the fork guard or the Future's own `__await__`
  -- refuses.
  pub await-same_future :
      (c d : Call F) (cs : List (Call F)) (s : LazyState W F) (f : F)
      → (await c s).1 ≡ ok f
      → d.guard ≡ ok tt
      → d.iter ≡ ok tt
      → await d (await_all cs (await c s).0).0 ≡ (started f, ok f, none)
  unfolding await
  await-same_future c d cs s f first guarded_ok iter_ok =
      rw (await_all-started cs (await c s).0 f (await-started c s f first)) (ground arith)
