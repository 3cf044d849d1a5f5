-- ===== src/Group/Methods.antt =====
-- src/group.rs, lines 28 to 57 and 332 to 679: the constructor of `ProcessGroup` and its methods, up to
-- what they ask the crate's group for. `G` is the crate's group, and `K` its command.
use processkit_py.Common.{
  ℕ, ◌≡◌, ◌≢◌, ◌⊎◌, Bool, true, false, Option, none, some, Result, ok, err, ok_or, ◌>>=◌, ◌>>◌,
  map_ok, arith, Result-cases, inl, inr,
}
use processkit_py.Durations.{F64, nonnegative_duration}
use processkit_py.Errors.{PyErr, process_error}
use processkit_py.Group.{GroupState, Reach, group}
use processkit_py.Group.Lifetime.{group-closes_once}
use processkit_py.Presets.{Arg}
use processkit_py.Presets.Signal.{Platform, Signal, parse_signal}
use processkit_py.Runtime.{guard_against_fork, reject_reentrant_runtime, require_event_loop}
use processkit_py.Running.Verbs.{Surface, sync, async, Caller, guard}
use processkit_py.Running.Verbs.Consume.{Unforked}

-- `ProcessGroupOptions`; what is not set keeps the crate's default.
pub record GroupOptions : Type 0 where
  pub max_memory : Option ℕ
  pub max_processes : Option ℕ
  pub cpu_quota : Option F64
  pub shutdown_timeout : Option ℕ
  pub escalate_to_kill : Option Bool

-- `shutdown_grace`, if it is given
grace_of : Option F64 → Result PyErr (Option ℕ)
grace_of none = ok none
grace_of (some seconds) = map_ok some (nonnegative_duration seconds)

-- `with_options` is the crate's, with its error mapped; the group is open.
unfoldable pub new :
    {G : Type 0}
    → (GroupOptions → Result PyErr G)
    → Option ℕ
    → Option ℕ
    → Option F64
    → Option F64
    → Option Bool
    → Result PyErr (Option G)
unfolding grace_of
new with_options memory processes quota shutdown_grace escalate = do
  grace ← grace_of shutdown_grace
  let options : GroupOptions = record {
    max_memory = memory;
    max_processes = processes;
    cpu_quota = quota;
    shutdown_timeout = grace;
    escalate_to_kill = escalate;
  }
  map_ok some (with_options options)

-- The verbs that run a command.
pub data RunVerb : Type 0 where
  start output output_bytes run exit_code probe : RunVerb

-- The methods but `update_limits`, which is that of the group's state, with their arguments.
pub data Method (K : Type 0) : Type 0 where
  runs : RunVerb → K → Method K
  mechanism soft_stop_scope members members_info suspend resume kill_all stats : Method K
  adopt_external : ℕ → Method K
  signal : Arg → Method K
  stop : F64 → Bool → Method K

-- What the crate's group is asked for.
pub data Op (K : Type 0) : Type 0 where
  runs : RunVerb → K → Op K
  mechanism soft_stop_scope members members_info suspend resume kill_all stats : Op K
  adopt_external : ℕ → Op K
  signal : Signal → Op K
  stop : ℕ → Bool → Op K

-- `block_on`, as far as it refuses; an awaitable, and a method that is no coroutine, do not go
-- through it.
block_on : Surface → Caller → Result PyErr (Unit {0})
unfolding guard_against_fork reject_reentrant_runtime
block_on sync c = (guard_against_fork c.pid c.owner).1 >> reject_reentrant_runtime c.inside
block_on async c = ok tt

module _ {K : Type 0} where
  -- The arguments, which are checked first.
  unfoldable pub requested : Platform → Method K → Result PyErr (Op K)
  requested platform (runs verb command) = ok (runs verb command)
  requested platform mechanism = ok mechanism
  requested platform soft_stop_scope = ok soft_stop_scope
  requested platform members = ok members
  requested platform members_info = ok members_info
  requested platform suspend = ok suspend
  requested platform resume = ok resume
  requested platform kill_all = ok kill_all
  requested platform stats = ok stats
  requested platform (adopt_external pid) = ok (adopt_external pid)
  requested platform (signal name) = map_ok signal (parse_signal platform name)
  requested platform (stop seconds escalate) =
      map_ok (λ grace. stop grace escalate) (nonnegative_duration seconds)

  -- The guard that `stop` and `astop` have of their own.
  own_guard : Method K → Surface → Caller → Result PyErr (Unit {0})
  unfolding guard
  own_guard (stop seconds escalate) s c = guard s c
  own_guard m s c = ok tt

  driver : Method K → Surface → Caller → Result PyErr (Unit {0})
  unfolding block_on
  driver (runs verb command) s c = block_on s c
  driver (stop seconds escalate) s c = block_on s c
  driver m s c = ok tt

  unfoldable pub call :
      {G : Type 0} → Platform → Method K → Surface → Caller → Option G → Result PyErr (Op K × G)
  unfolding requested own_guard driver
  call platform m s c slot = do
    op ← requested platform m
    own_guard m s c
    group ← ok_or process_error slot
    driver m s c
    ok (op, group)

-- A call from outside the runtime, in the process that owns it, and on a thread with an event loop
-- if it asks for an awaitable.
abbrev pub Fitting : Surface → Caller → Type 0
Fitting sync c = (c.inside ≡ false) × Unforked c
Fitting async c = c.event_loop ≡ true

-- A blocking call from inside the runtime, or from a process that was forked off its owner.
abbrev CannotBlock : Caller → Type 0
CannotBlock c = (c.inside ≡ true) ⊎ ((c.owner ≢ 0) × (c.owner ≢ c.pid))

-- A call of a method that needs the runtime, from where it cannot have it.
abbrev pub Barred : {K : Type 0} → Method K → Surface → Caller → Type 0
Barred (runs verb command) sync c = CannotBlock c
Barred (stop seconds escalate) sync c = CannotBlock c
Barred (stop seconds escalate) async c = c.event_loop ≡ false
Barred m s c = ⊥

module _ {K : Type 0} where
  own_guard-Fitting :
      (m : Method K) (s : Surface) (c : Caller) → Fitting s c → own_guard m s c ≡ ok tt
  unfolding own_guard guard reject_reentrant_runtime require_event_loop
  own_guard-Fitting m sync c h = ground arith
  own_guard-Fitting m async c h = ground arith

  driver-Fitting : (m : Method K) (s : Surface) (c : Caller) → Fitting s c → driver m s c ≡ ok tt
  unfolding driver block_on guard_against_fork reject_reentrant_runtime
  driver-Fitting m sync c h = ground arith
  driver-Fitting m async c h = ground arith

  call-Fitting :
      {G : Type 0} (platform : Platform) (m : Method K) (s : Surface) (c : Caller) (slot : Option G)
      → Fitting s c
      → call platform m s c slot
        ≡ (requested platform m >>= λ op. map_ok (λ g. (op, g)) (ok_or process_error slot))
  unfolding call
  call-Fitting platform m s c slot h = elim (Result-cases (requested platform m)) [
    | inl a ↦ ground (arith, own_guard-Fitting m s c h, driver-Fitting m s c h)
    | inr e ↦ ground arith
  ]

  call-Barred :
      {G : Type 0} (platform : Platform) (m : Method K) (s : Surface) (c : Caller) (slot : Option G)
      (op : Op K)
      → Barred m s c
      → requested platform m ≡ ok op
      → call platform m s c slot ≡ err process_error
  unfolding call own_guard driver block_on guard guard_against_fork reject_reentrant_runtime
      require_event_loop
  call-Barred platform m s c slot op barred accepted = ground (arith, barred, accepted)

  pub call-lifetime :
      {G : Type 0} {g : G} {state : GroupState G}
      → Reach g state
      → (platform : Platform) (m : Method K) (s : Surface) (c : Caller) → Fitting s c
      → (state.torn ≡ 0
          → call platform m s c state.inner ≡ map_ok (λ op. (op, g)) (requested platform m))
        × (state.torn ≡ 1
            → call platform m s c state.inner ≡ (requested platform m >>= λ op. err process_error))
        × ((elsewhere : Caller) (slot : Option G) (op : Op K)
            → Barred m s elsewhere
            → requested platform m ≡ ok op
            → call platform m s elsewhere slot ≡ err process_error)
  unfolding group
  call-lifetime {G} {g} {state} r platform m s c h = (
    λ still_open.
        ground
          (arith, call-Fitting platform m s c state.inner h, (group-closes_once r).1 still_open),
    λ closed.
        ground (arith, call-Fitting platform m s c state.inner h, (group-closes_once r).2 closed),
    λ elsewhere slot op barred accepted. call-Barred platform m s elsewhere slot op barred accepted,
  )
