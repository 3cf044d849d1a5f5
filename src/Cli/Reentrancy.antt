-- ===== src/Cli/Reentrancy.antt =====
-- src/cli.rs, lines 57 to 135 and 168 to 211: builds within builds on one thread.
use processkit_py.Common.{
  ◌≡◌, refl, Option, Option-cases, inl, inr, none, some, List, [], ◌∷◌, Result, ok, err, arith,
  Text,
}
use processkit_py.Cli.{
  Resolved, finalizing, fails, resolves, Resolvers, finished, resolver, Builds, no_builds, build,
  Slot, env_resolver, invoke, build_all, build_command, client_verb,
}
use processkit_py.Errors.{PyErr}
use processkit_py.Runner.{Sinks}
use processkit_py.Runner.Capture.{Future, first_error, with_when_capture-raises_first}

or_later : Option PyErr → Option PyErr → Option PyErr
or_later none later = later
or_later (some e) later = some e

failure : Resolved → Option PyErr
failure finalizing = none
failure (fails e) = some e
failure (resolves text) = none

value : Resolved → Text
value (resolves text) = text
value r = []

-- The error of a build without any slot: that of the first of its own resolvers that fails, each of
-- which sees the errors of the builds that it makes.
unfoldable mutual
  unfolding or_later failure

  pub first_failure : Resolvers → Option PyErr
  first_failure finished = none
  first_failure (resolver builds callback more) =
      or_later (failure (callback (failures builds))) (first_failure more)

  pub failures : Builds → List (Option PyErr)
  failures no_builds = []
  failures (build resolvers more) = first_failure resolvers ∷ failures more

unfoldable pub values : Resolvers → List Text
unfolding value failures
values finished = []
values (resolver builds callback more) = value (callback (failures builds)) ∷ values more

env_resolver-parks :
    (r : Resolved) (slot : Slot) → env_resolver r slot ≡ (or_later slot (failure r), value r)
unfolding env_resolver or_later failure value
env_resolver-parks finalizing none = refl
env_resolver-parks finalizing (some e) = refl
env_resolver-parks (fails e) none = refl
env_resolver-parks (fails e) (some d) = refl
env_resolver-parks (resolves text) none = refl
env_resolver-parks (resolves text) (some e) = refl

or_later-none : (a : Option PyErr) → or_later a none ≡ a
unfolding or_later
or_later-none none = refl
or_later-none (some e) = refl

or_later_assoc : (a b c : Option PyErr) → or_later (or_later a b) c ≡ or_later a (or_later b c)
unfolding or_later
or_later_assoc none b c = refl
or_later_assoc (some e) b c = refl

mutual
  unfolding invoke first_failure values or_later

  invoke-parks :
      (rs : Resolvers) (slot : Slot)
      → invoke rs slot ≡ (or_later slot (first_failure rs), values rs)
  invoke-parks finished slot = ground (arith, or_later-none slot)
  invoke-parks (resolver builds callback more) slot =
      let r = callback (failures builds) in
      ground (
        arith,
        build_all-parks builds slot,
        env_resolver-parks r slot,
        invoke-parks more (or_later slot (failure r)),
        or_later_assoc slot (failure r) (first_failure more),
      )

  build_all-parks : (bs : Builds) (slot : Slot) → build_all bs slot ≡ (slot, failures bs)
  build_all-parks no_builds slot = refl
  build_all-parks (build resolvers more) slot =
      ground (arith, invoke-parks resolvers none, build_all-parks more slot)

-- Building a command leaves the slot of the thread as it was, whatever it held, and raises the error
-- of the first of its own resolvers that fails, as if there were no slot: the errors of commands that
-- its resolvers build, at whatever depth, neither replace it nor are taken for it. If none of them
-- fails, the command has the values that they gave.
pub build_command-reentrant :
    {K : Type 0} (apply : List Text → K) (rs : Resolvers) (slot : Slot)
    → build_command apply rs slot
      ≡ (slot, elim (first_failure rs) [ some e ↦ err e | none ↦ ok (apply (values rs)) ])
unfolding build_command or_later
build_command-reentrant apply rs slot = elim (Option-cases (first_failure rs)) [
  | inl absent ↦ ground (arith, invoke-parks rs none, absent)
  | inr failed ↦ ground (arith, invoke-parks rs none, failed.1)
]

-- A verb of a client whose resolvers fail runs nothing and raises the error of the first that failed;
-- otherwise it runs the command, and raises the first error of the callbacks of that run in preference
-- to its result.
pub client_verb-fail_closed :
    {K W A : Type 0} (apply : List Text → K) (run : K → W → W × Future × Result PyErr A)
    (rs : Resolvers) (slot : Slot) (sinks : Sinks) (w : W)
    → client_verb apply run rs slot sinks w ≡ (elim (first_failure rs) [
      | some e ↦ (slot, w, sinks, err e)
      | none ↦
          let r = run (apply (values rs)) w in
          (slot, r.0, sinks, elim (first_error r.1) [ some e ↦ err e | none ↦ r.2 ])
    ])
unfolding client_verb
client_verb-fail_closed apply run rs slot sinks w = elim (Option-cases (first_failure rs)) [
  | inl absent ↦
      let r = run (apply (values rs)) w in
      ground (
        arith,
        build_command-reentrant apply rs slot,
        absent,
        with_when_capture-raises_first r.1 r.2 sinks,
      )
  | inr failed ↦ ground (arith, build_command-reentrant apply rs slot, failed.1)
]
