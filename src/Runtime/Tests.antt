-- ===== src/Runtime/Tests.antt =====
-- src/runtime.rs: the rest of the runtime on small inputs.
use processkit_py.Common.{ℕ, ◌≡◌, ◌≢◌, ◌++◌, refl, true, false, some, [], ◌∷◌, arith, ok, err}
use processkit_py.Errors.{process_error, raised}
use processkit_py.Runtime.{
  done, elapsed, idle_turns, block_on_interruptible, block_on_interruptible-cases,
}
use processkit_py.Runtime.Lazy.{LazyState, Call, await, await_all, unstarted, await_all-work}

abbrev owner_pid : ℕ
owner_pid = 41

abbrev child_pid : ℕ
child_pid = 99

abbrev answer : ℕ
answer = 5

not_zero : owner_pid ≢ 0
not_zero e = absurd (omega arith)

block_on_interruptible-cases_example :
    (block_on_interruptible owner_pid owner_pid false (idle_turns 3 ++ done answer ∷ [])
      ≡ some (ok answer))
    × (block_on_interruptible owner_pid owner_pid false
          (idle_turns {A = ℕ} 3 ++ elapsed (some (raised 1)) ∷ [])
        ≡ some (err (raised 1)))
    × (block_on_interruptible owner_pid owner_pid true (idle_turns 3 ++ done answer ∷ [])
        ≡ some (err process_error))
    × (child_pid ≢ owner_pid
        → block_on_interruptible child_pid owner_pid false (idle_turns 3 ++ done answer ∷ [])
          ≡ some (err process_error))
block_on_interruptible-cases_example =
    block_on_interruptible-cases child_pid owner_pid 3 answer (raised 1) [] not_zero

-- A call that the fork guard refuses, and two that start or find the Future 8.
abbrev refused : Call ℕ
refused = record { guard = err process_error; bridge = ok 8; iter = ok tt }

abbrev allowed : Call ℕ
allowed = record { guard = ok tt; bridge = ok 8; iter = ok tt }

abbrev fresh : LazyState ℕ ℕ
fresh = LazyState.pending 3

await_all-work_example :
    (await_all (refused ∷ allowed ∷ allowed ∷ []) fresh).1
      ++ unstarted (await_all (refused ∷ allowed ∷ allowed ∷ []) fresh).0
    ≡ 3 ∷ []
await_all-work_example = await_all-work (refused ∷ allowed ∷ allowed ∷ []) fresh

first_await : (await allowed fresh).1 ≡ ok 8
unfolding await
first_await = refl
