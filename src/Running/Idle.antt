-- ===== src/Running/Idle.antt =====
-- src/running.rs, lines 61 to 82, 550 to 581, 854 to 885, 902 to 930 and 945 to 980: `__anext__` of
-- the output iterators, with the idle timeout that kills a silent child.
use processkit_py.Common.{
  ◌≡◌, refl, Bool, true, false, Option, none, some, List, [], ◌∷◌, ◌++◌, arith, is_some,
  if◌then◌else◌, Result, ok, err,
}
use processkit_py.Errors.{PyErr, idle_timeout, stop_async_iteration}

-- What a wait for the next item meets: an item, the end of the stream, or that the idle window went
-- by in silence.
pub data Wait (E : Type 0) : Type 0 where
  yields : E → Wait E
  ends : Wait E
  lapses : Wait E

-- `IdleGuard::kill`: whether a kill of the child is started.
unfoldable pub kill : {P : Type 0} → Option P → Bool
kill slot = is_some slot

module _ {P E L : Type 0} (slot : Option P) (pick : E → Option L) where
  -- `__anext__`, over the waits that the world deals it: whether the child was killed, and the line
  -- or the exception; `none` while it still waits. Every wait has a window of its own, and without a
  -- guard there is no window. A wait is one call of the stream's `next`, or of the drive's `next_line`
  -- or `next_event`; `pick` takes every item, but for `StderrLines`, which loops over `next_event`
  -- until it meets a line of stderr.
  unfoldable pub anext : Bool → List (Wait E) → Option (Bool × Result PyErr L)
  unfolding kill
  anext guarded [] = none
  anext guarded (ends ∷ waits) = some (false, err stop_async_iteration)
  anext guarded (yields e ∷ waits) =
      let again = anext guarded waits in
      elim (pick e) [ some l ↦ some (false, ok l) | none ↦ again ]
  anext guarded (lapses ∷ waits) =
      let again = anext guarded waits in
      if guarded then some (kill slot, err idle_timeout) else again

  -- Items that are passed over; with a guard no window has gone by.
  abbrev pub Passed : Bool → List (Wait E) → Type 0
  Passed guarded [] = Unit
  Passed guarded (ends ∷ waits) = ⊥
  Passed guarded (yields e ∷ waits) = (pick e ≡ none) × Passed guarded waits
  Passed guarded (lapses ∷ waits) = (guarded ≡ false) × Passed guarded waits

  anext-Passed :
      (guarded : Bool) (before rest : List (Wait E))
      → Passed guarded before
      → anext guarded (before ++ rest) ≡ anext guarded rest
  unfolding anext
  anext-Passed guarded [] rest h = refl
  anext-Passed guarded (ends ∷ before) rest h = elim h [ ]
  anext-Passed guarded (yields e ∷ before) rest h =
      ground (arith, h.0, anext-Passed guarded before rest h.1)
  anext-Passed guarded (lapses ∷ before) rest h =
      ground (arith, h.0, anext-Passed guarded before rest h.1)

  -- After any number of items that are passed over, the iterator returns the first line that it is
  -- about, and leaves the child alone; it ends with the stream; and under an idle guard a window
  -- without any item kills the child, if the handle still has it, and raises `IdleTimeout`, never an
  -- end of the iteration.
  pub anext-first :
      (before rest : List (Wait E)) (guarded : Bool) (e : E) (l : L)
      → Passed guarded before
      → pick e ≡ some l
      → (anext guarded (before ++ yields e ∷ rest) ≡ some (false, ok l))
        × (anext guarded (before ++ ends ∷ rest) ≡ some (false, err stop_async_iteration))
        × (guarded ≡ true
            → anext guarded (before ++ lapses ∷ rest) ≡ some (is_some slot, err idle_timeout))
  unfolding anext
  anext-first before rest guarded e l passed picked = (
    ground (arith, picked, anext-Passed guarded before (yields e ∷ rest) passed),
    ground (arith, anext-Passed guarded before (ends ∷ rest) passed),
    λ on. ground (arith, on, anext-Passed guarded before (lapses ∷ rest) passed),
  )
