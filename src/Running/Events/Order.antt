-- ===== src/Running/Events/Order.antt =====
-- src/running.rs: the events that a consumer of the drive gets.
use processkit_py.Common.{
  ℕ, zero, suc, ◌<◌, ◌≡◌, ap, refl, Bool, true, false, none, List, [], ◌∷◌, length, arith,
  if◌then◌else◌, is_some, not, inl, inr, Bool-cases,
}
use processkit_py.Running.{IsValid}
use processkit_py.Running.Events.{
  Turn, arrives, terminal, ends, timer, Drive, on_output, on_timer, next_event, onward, pull_all,
  events,
}
use processkit_py.Running.Events.Handover.{Reaped, on_timer-whereabouts}

-- The terminal event comes only after the child has exited by a time at which the probe's timer fires,
-- or where the process was gone from the beginning.
abbrev pub Due : {E : Type 0} → Bool → List (Turn E) → Type 0
Due gone [] = Unit
Due gone (arrives e ∷ turns) = Due gone turns
Due gone (terminal e ∷ turns) = (gone ≡ true) × Due gone turns
Due gone (ends ∷ turns) = Due gone turns
Due gone (timer true ∷ turns) = Due true turns
Due gone (timer false ∷ turns) = Due gone turns

-- Whether the slot of the drive's handle has no process.
abbrev pub is_gone : {P : Type 0} → Drive P → Bool
is_gone d = not (is_some d.inner)

module _ {P : Type 0} where
  -- The drive after its timer has fired.
  abbrev fired : Bool → Drive P → Drive P
  fired b d = if d.reap_started then d else on_timer b d

  on_timer-gone :
      (b : Bool) (d : Drive P)
      → IsValid d.handle
      → ((on_timer true d).inner ≡ none) × (d.inner ≡ none → (on_timer b d).inner ≡ none)
  unfolding on_timer
  on_timer-gone b d v = ground arith

  fired-gone :
      (b : Bool) (d : Drive P)
      → IsValid d.handle
      → Reaped d
      → IsValid (fired b d).handle
        × Reaped (fired b d)
        × ((fired true d).inner ≡ none)
        × (d.inner ≡ none → (fired b d).inner ≡ none)
  fired-gone b d v r = elim (Bool-cases d.reap_started) [
    | inl begun ↦ ground arith
    | inr waits ↦
        let (same, v', r') = on_timer-whereabouts b d v waits in
        ground (arith, v', r', on_timer-gone b d v)
  ]

module _ {P E : Type 0} where
  pull_all-Due :
      (gone : Bool) (n : ℕ) (turns : List (Turn E)) (d : Drive P)
      → IsValid d.handle
      → Reaped d
      → (gone ≡ true → d.inner ≡ none)
      → Due gone turns
      → length turns < n
      → pull_all n turns d ≡ events turns
  unfolding pull_all next_event onward
  pull_all-Due gone zero turns d v r g due h = elim h [ ]
  pull_all-Due gone (suc n) [] d v r g due h = refl
  pull_all-Due gone (suc n) (arrives e ∷ turns) d v r g due h =
      ap (λ (es : List E). e ∷ es)
        (pull_all-Due gone n turns (on_output d) (ground arith) (ground arith) (ground arith) due
          (omega arith))
  pull_all-Due gone (suc n) (terminal e ∷ turns) d v r g (reaped, due) h =
      let later =
        pull_all-Due gone n turns (on_output d) (ground arith) (ground arith) (ground arith) due
          (omega arith) in
      ground (arith, g reaped, later)
  pull_all-Due gone (suc n) (ends ∷ turns) d v r g due h = refl
  pull_all-Due gone (suc n) (timer true ∷ turns) d v r g due h =
      let (v', r', taken, still) = fired-gone true d v r in
      pull_all-Due true (suc n) turns (fired true d) v' r' (λ e. taken) due (omega arith)
  pull_all-Due gone (suc n) (timer false ∷ turns) d v r g due h =
      let (v', r', taken, still) = fired-gone false d v r in
      pull_all-Due gone (suc n) turns (fired false d) v' r' (λ e. still (g e)) due (omega arith)

  pub pull_all-events :
      (n : ℕ) (turns : List (Turn E)) (d : Drive P)
      → IsValid d.handle
      → Reaped d
      → Due (is_gone d) turns
      → length turns < n
      → pull_all n turns d ≡ events turns
  pull_all-events n turns d v r due h =
      pull_all-Due (is_gone d) n turns d v r (λ gone. ground arith) due h
