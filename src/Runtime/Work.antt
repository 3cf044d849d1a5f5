-- ===== src/Runtime/Work.antt =====
-- src/runtime.rs, lines 251 to 281: polling the work of an operation beside its cancellation.
use processkit_py.Common.{
  ◌≡◌, ◌≢◌, refl, Bool, true, false, Option, none, some, List, [], ◌∷◌, ◌++◌,
}

-- What polling the oneshot receiver finds: nothing yet, the cancellation, or a dropped sender.
pub data Signal : Type 0 where
  quiet sent closed : Signal

pub data WorkExit (R : Type 0) : Type 0 where
  completed : R → WorkExit R
  cancelled : WorkExit R

module _ {R : Type 0} where
  listening : Bool → Signal → Bool × Option (WorkExit R)
  listening false signal = (false, none)
  listening true quiet = (true, none)
  listening true sent = (true, some cancelled)
  listening true closed = (false, none)

  -- One `poll`, from `listen_for_cancel`, what the work answers and what the receiver would answer:
  -- the new `listen_for_cancel`, and `none` for `Poll::Pending`.
  unfoldable pub poll : Bool → Option R → Signal → Bool × Option (WorkExit R)
  unfolding listening
  poll listen (some r) signal = (listen, some (completed r))
  poll listen none signal = listening listen signal

  -- The polls in turn, until one is ready.
  unfoldable pub poll_all : Bool → List (Option R × Signal) → Option (WorkExit R)
  poll_all listen [] = none
  poll_all listen ((work, signal) ∷ rest) = elim (poll listen work signal).1 [
    | some exit ↦ some exit
    | none ↦ poll_all (poll listen work signal).0 rest
  ]

  poll_all-deaf : (polls : List (Option R × Signal)) → poll_all false polls ≢ some cancelled
  unfolding poll_all poll
  poll_all-deaf [] h = cc
  poll_all-deaf ((some r, signal) ∷ rest) h = cc
  poll_all-deaf ((none, signal) ∷ rest) h = poll_all-deaf rest h

  abbrev Undecided : Option R × Signal → Type 0
  Undecided p = (p.0 ≡ none) × (p.1 ≡ quiet)

  abbrev pub AllUndecided : List (Option R × Signal) → Type 0
  AllUndecided [] = Unit
  AllUndecided (p ∷ ps) = Undecided p × AllUndecided ps

  -- Over any sequence of polls the first decisive one wins: a completed work gives its result even
  -- if the cancellation has been sent too; a sent cancellation ends pending work; and a sender that
  -- was dropped unsent can no longer cancel it.
  pub poll_all-first_wins :
      (before rest : List (Option R × Signal)) (r : R) (signal : Signal)
      → AllUndecided before
      → (poll_all true (before ++ (some r, signal) ∷ rest) ≡ some (completed r))
        × (poll_all true (before ++ (none, sent) ∷ rest) ≡ some cancelled)
        × (poll_all true (before ++ (none, closed) ∷ rest) ≢ some cancelled)
  unfolding poll_all poll
  poll_all-first_wins [] rest r signal h = (refl, refl, λ e. poll_all-deaf rest e)
  poll_all-first_wins ((work, s) ∷ before) rest r signal h =
      rw (h.0.0, h.0.1) (poll_all-first_wins before rest r signal h.1)
