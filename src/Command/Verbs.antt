-- ===== src/Command/Verbs.antt =====
-- src/command.rs, lines 1197 to 1201, 1237 to 1255, 1311 to 1329 and 1410 to 1480: what the verbs and
-- `__repr__` make of a `Command`. What the crate's verbs give is an argument: the result that they
-- have, with the errors already mapped.
use processkit_py.Common.{
  ℕ, true, Result-cases, ◌≡◌, ◌⊎◌, Option, none, some, Option-cases, List, inl, inr, is_some,
  Result, ok, err, map_ok, if◌then◌else◌, arith, Text, codes,
}
use processkit_py.Crate.{CrateCommand}
use processkit_py.Command.{Wrapped, rewrap, new}
use processkit_py.Command.History.{idle_after, final, chain-last_wins}
use processkit_py.Command.Methods.{Method, chain}
use processkit_py.Command.Settings.{Machine}
use processkit_py.Errors.{PyErr, unsupported}
use processkit_py.Running.{Handle, started}

-- `PyRunningProcess`, as `started` builds it: the handle, the idle timeout and the program.
pub record Started (P : Type 0) : Type 0 where
  pub handle : Handle P
  pub idle : Option ℕ
  pub program : Text

abbrev pub redacted_arg0 : Text
redacted_arg0 = codes "<redacted>"

module _ {K Enc Lim : Type 0} (crate : CrateCommand K Enc Lim) where
  -- `start` and `astart`; `spawn` is what the crate's `start` gives.
  unfoldable pub start : {P : Type 0} → (K → Result PyErr P) → Wrapped K → Result PyErr (Started P)
  unfolding started
  start spawn c =
      map_ok
        (λ r. record { handle = started r; idle = c.idle_timeout; program = crate.program c.inner })
        (spawn c.inner)

  -- `spawn_detached` on a world `W` in which the crate starts the process.
  unfoldable pub spawn_detached :
      {W D : Type 0} → (K → W → W × Result PyErr D) → Wrapped K → W → W × Result PyErr D
  spawn_detached spawn c w =
      if is_some c.idle_timeout then (w, err unsupported) else spawn c.inner w

  unfoldable pub arg0 : Text → Wrapped K → Wrapped K
  unfolding rewrap
  arg0 name c = rewrap c (crate.arg0 name c.inner)

  -- The `match` of `__repr__`.
  rendered : K → Option Text → Text
  rendered inner none = crate.debug inner
  rendered inner (some name) = crate.debug (crate.arg0 redacted_arg0 inner)

  unfoldable pub repr : Wrapped K → Text
  unfolding rendered
  repr c = rendered c.inner (crate.configured_arg0 c.inner)

  -- If the crate's command has the `arg0` that was set last, and nothing of an earlier one, the `repr`
  -- of a command with an `arg0` does not depend on which one it is.
  pub repr-arg0 :
      ((name : Text) (inner : K) → crate.configured_arg0 (crate.arg0 name inner) ≡ some name)
      → ((later earlier : Text) (inner : K)
          → crate.arg0 later (crate.arg0 earlier inner) ≡ crate.arg0 later inner)
      → (name other : Text) (c : Wrapped K) → repr (arg0 name c) ≡ repr (arg0 other c)
  unfolding repr arg0
  repr-arg0 kept last name other c = ground (
    arith,
    kept name c.inner,
    kept other c.inner,
    last redacted_arg0 name c.inner,
    last redacted_arg0 other c.inner,
  )

  -- If a chain of builder methods on a new `Command` raises nothing, a process that `start` starts has the
  -- last idle timeout that was set, and `spawn_detached`, which could not enforce it, raises
  -- `Unsupported` and starts nothing if one was set, and otherwise does what the crate does.
  pub idle_timeout-carried :
      {P W D : Type 0} (machine : Machine) (ms : List Method) (program : Text)
      (args : Option (List Text)) (c : Wrapped K) (spawn : K → Result PyErr P)
      (detach : K → W → W × Result PyErr D) (w : W)
      → chain crate machine ms (new crate program args) ≡ ok c
      → ((s : Started P) → start spawn c ≡ ok s → s.idle ≡ final idle_after ms none)
        × ((final idle_after ms none ≡ none) × (spawn_detached detach c w ≡ detach c.inner w)
            ⊎ (is_some (final idle_after ms none) ≡ true)
              × (spawn_detached detach c w ≡ (w, err unsupported)))
  unfolding start spawn_detached
  idle_timeout-carried machine ms program args c spawn detach w h =
      let kept = (chain-last_wins crate machine ms program args c h).0 in
      (
        λ s started_ok. elim (Result-cases (spawn c.inner)) [
          | inl e ↦ ground arith
          | inr r ↦ ground arith
        ],
        elim (Option-cases (final idle_after ms none)) [
          | inl unset ↦ inl (unset, ground arith)
          | inr set ↦ inr (ground arith, ground arith)
        ],
      )
