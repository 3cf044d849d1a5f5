-- ===== src/Cli.antt =====
-- src/cli.rs, lines 34 to 226 and 396 to 640: the command that a `CliClient` builds, and the verbs that
-- run it. The crate invokes the resolvers of the environment one after the other; a resolver is Python
-- code, which may build commands of its own on the same thread.
pub mod Reentrancy
pub mod Client
pub mod Twins
mod Tests
use processkit_py.Common.{Option, none, some, List, [], ◌∷◌, Result, ok, err, Text}
use processkit_py.Errors.{PyErr}
use processkit_py.Runner.{Sinks}
use processkit_py.Runner.Capture.{Future, with_when_capture}

-- What becomes of a call of a resolver: the interpreter is finalizing; it raises, or returns no text;
-- it gives a text.
pub data Resolved : Type 0 where
  finalizing : Resolved
  fails : PyErr → Resolved
  resolves : Text → Resolved

-- The resolvers that one build invokes. Each first builds other commands, and what it gives may
-- depend on the errors of those builds.
mutual
  pub data Resolvers : Type 0 where
    finished : Resolvers
    resolver : Builds → (List (Option PyErr) → Resolved) → Resolvers → Resolvers

  pub data Builds : Type 0 where
    no_builds : Builds
    build : Resolvers → Builds → Builds

-- `RESOLVER_ERROR`, the slot of the thread.
abbrev pub Slot : Type 0
Slot = Option PyErr

park : PyErr → Slot → Slot
park e none = some e
park e (some first) = some first

-- The closure of `make_env_resolver`, after the callback has returned.
unfoldable pub env_resolver : Resolved → Slot → Slot × Text
unfolding park
env_resolver finalizing slot = (slot, [])
env_resolver (fails e) slot = (park e slot, [])
env_resolver (resolves text) slot = (slot, text)

-- `ResolverErrorScope`: what `enter` saves, and the slot that it leaves; what `drop` puts back.
unfoldable pub enter : Slot → Option PyErr × Slot
enter slot = (slot, none)

unfoldable pub take_error : Slot → Option PyErr × Slot
take_error slot = (slot, none)

unfoldable pub drop_scope : Option PyErr → Slot → Slot
drop_scope outer slot = outer

-- The values that the crate puts into the environment, and the errors of the builds of a resolver.
unfoldable mutual
  unfolding env_resolver enter take_error drop_scope

  pub invoke : Resolvers → Slot → Slot × List Text
  invoke finished slot = (slot, [])
  invoke (resolver builds callback more) slot =
      let b = build_all builds slot in
      let r = env_resolver (callback b.1) b.0 in
      let rest = invoke more r.0 in (rest.0, r.1 ∷ rest.1)

  pub build_all : Builds → Slot → Slot × List (Option PyErr)
  build_all no_builds slot = (slot, [])
  build_all (build resolvers more) slot =
      let entered = enter slot in
      let r = invoke resolvers entered.1 in
      let taken = take_error r.0 in
      let rest = build_all more (drop_scope entered.0 taken.1) in (rest.0, taken.0 ∷ rest.1)

module _ {K : Type 0} where
  built : Option PyErr → K → Result PyErr K
  built none command = ok command
  built (some e) command = err e

  -- `apply` is what the crate makes of the values.
  unfoldable pub build_command : (List Text → K) → Resolvers → Slot → Slot × Result PyErr K
  unfolding invoke enter take_error drop_scope built
  build_command apply resolvers slot =
      let entered = enter slot in
      let r = invoke resolvers entered.1 in
      let taken = take_error r.0 in (drop_scope entered.0 taken.1, built taken.0 (apply r.1))

  -- What the verbs share. A world `W` is what a run of the crate changes.
  run_built :
      {W A : Type 0}
      → (K → W → W × Future × Result PyErr A)
      → Result PyErr K
      → Sinks
      → W
      → W × Sinks × Result PyErr A
  unfolding with_when_capture
  run_built run (err e) sinks w = (w, sinks, err e)
  run_built run (ok command) sinks w =
      let r = run command w in
      let (sinks', result) = with_when_capture r.1 r.2 sinks in (r.0, sinks', result)

  unfoldable pub client_verb :
      {W A : Type 0}
      → (List Text → K)
      → (K → W → W × Future × Result PyErr A)
      → Resolvers
      → Slot
      → Sinks
      → W
      → Slot × W × Sinks × Result PyErr A
  unfolding build_command run_built
  client_verb apply run resolvers slot sinks w =
      let (slot', command) = build_command apply resolvers slot in
      let (w', sinks', result) = run_built run command sinks w in (slot', w', sinks', result)
