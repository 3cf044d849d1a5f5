-- ===== src/Running/Verbs/Consume.antt =====
-- src/running.rs: what the calls of consuming verbs take, and what refused ones leave.
use processkit_py.Common.{
  ℕ, ◌+◌, ◌≤◌, ◌≡◌, ◌⊎◌, inl, refl, List, [], ◌∷◌, arith, length, Result, ok, err,
}
use processkit_py.Errors.{PyErr}
use processkit_py.Runtime.{guard_against_fork}
use processkit_py.Running.{Handle, IsValid, take_claim, claim, take_running_uncaptured, started}
use processkit_py.Running.Events.Handover.{whereabouts}
use processkit_py.Running.Verbs.{
  Surface, Caller, Verb, outcome, finish, output, output_bytes, profile, shutdown, Plan, drive,
  consume,
}

-- The call does not come from a process that was forked off the runtime's owner.
abbrev pub Unforked : Caller → Type 0
Unforked c = (c.owner ≡ 0) ⊎ (c.owner ≡ c.pid)

module _ {P : Type 0} where
  claim-refused : (h : Handle P) (e : PyErr) → (claim h).1 ≡ err e → (claim h).0 ≡ h
  unfolding claim take_claim
  claim-refused h e r = ground arith

  uncaptured-refused :
      (h : Handle P) (e : PyErr)
      → (take_running_uncaptured h).1 ≡ err e
      → (take_running_uncaptured h).0 ≡ h
  unfolding take_running_uncaptured
  uncaptured-refused h e r = ground arith

  -- A consuming verb that raises when it is called leaves the handle exactly as it was, so that the
  -- caller can use the right twin or another verb: a bad argument, a synchronous verb inside the
  -- runtime, an asynchronous one without an event loop, a run that is consumed or whose output was
  -- streamed. This is for calls from the process that owns the runtime.
  pub consume-refused_keeps :
      (v : Verb) (s : Surface) (c : Caller) (h : Handle P) (e : PyErr)
      → Unforked c
      → (consume v s c h).1 ≡ err e
      → (consume v s c h).0 ≡ h
  unfolding consume drive guard_against_fork
  consume-refused_keeps outcome s c h e u r = ground (arith, claim-refused h e)
  consume-refused_keeps finish s c h e u r = ground (arith, claim-refused h e)
  consume-refused_keeps output s c h e u r = ground (arith, uncaptured-refused h e)
  consume-refused_keeps output_bytes s c h e u r = ground (arith, uncaptured-refused h e)
  consume-refused_keeps (profile every) s c h e u r = ground (arith, uncaptured-refused h e)
  consume-refused_keeps (shutdown grace) s c h e u r = ground (arith, claim-refused h e)

length-zero {ℓ} : {A : Type ℓ} (xs : List A) → length xs ≡ 0 → xs ≡ []
length-zero [] h = refl
length-zero (x ∷ xs) h = absurd (omega (arith, h))

-- How many plans a call has given to the driver.
abbrev pub granted : {P : Type 0} → Result PyErr (Plan P) → ℕ
granted (ok plan) = 1
granted (err e) = 0

module _ {P : Type 0} where
  -- A sequence of calls on one handle: how many of them were granted, and the handle.
  abbrev pub consume_all : List (Verb × Surface × Caller) → Handle P → Handle P × ℕ
  consume_all [] h = (h, 0)
  consume_all ((v, s, c) ∷ calls) h =
      let (h', r) = consume v s c h in let (h'', n) = consume_all calls h' in (h'', granted r + n)

  claim-whereabouts :
      (h : Handle P)
      → IsValid h
      → IsValid (claim h).0
        × (elim (claim h).1 [ ok claimed ↦ 1 | err e ↦ 0 ] + length (whereabouts (claim h).0)
            ≤ length (whereabouts h))
  unfolding claim take_claim
  claim-whereabouts h v = ground arith

  uncaptured-whereabouts :
      (h : Handle P)
      → IsValid h
      → IsValid (take_running_uncaptured h).0
        × (elim (take_running_uncaptured h).1 [ ok p ↦ 1 | err e ↦ 0 ]
              + length (whereabouts (take_running_uncaptured h).0)
            ≤ length (whereabouts h))
  unfolding take_running_uncaptured
  uncaptured-whereabouts h v = ground arith

  abbrev Spends : Handle P → Handle P × Result PyErr (Plan P) → Type 0
  Spends h (h', r) = IsValid h' × (granted r + length (whereabouts h') ≤ length (whereabouts h))

  consume-Spends :
      (v : Verb) (s : Surface) (c : Caller) (h : Handle P) → IsValid h → Spends h (consume v s c h)
  unfolding consume drive
  consume-Spends outcome s c h v = ground (arith, claim-whereabouts h v)
  consume-Spends finish s c h v = ground (arith, claim-whereabouts h v)
  consume-Spends output s c h v = ground (arith, uncaptured-whereabouts h v)
  consume-Spends output_bytes s c h v = ground (arith, uncaptured-whereabouts h v)
  consume-Spends (profile every) s c h v = ground (arith, uncaptured-whereabouts h v)
  consume-Spends (shutdown grace) s c h v = ground (arith, claim-whereabouts h v)

  consume_all-spends :
      (calls : List (Verb × Surface × Caller)) (h : Handle P)
      → IsValid h
      → (consume_all calls h).1 + length (whereabouts (consume_all calls h).0)
        ≤ length (whereabouts h)
  consume_all-spends [] h v = omega arith
  consume_all-spends ((v, s, c) ∷ calls) h valid =
      let (valid', spent) = consume-Spends v s c h valid in
      omega (arith, spent, consume_all-spends calls (consume v s c h).0 valid')

  started-IsValid : (p : P) → IsValid (started p)
  unfolding started
  started-IsValid p = record { emptied = inl refl }

  started-whereabouts : (p : P) → length (whereabouts (started p)) ≡ 1
  unfolding started
  started-whereabouts p = refl

  -- Of any sequence of consuming verbs on a handle, blocking or awaitable, from whatever callers, at
  -- most one is granted the run; once one has been, the handle holds the process in no slot.
  pub consume_all-once :
      (calls : List (Verb × Surface × Caller)) (p : P)
      → ((consume_all calls (started p)).1 ≤ 1)
        × ((consume_all calls (started p)).1 ≡ 1
            → whereabouts (consume_all calls (started p)).0 ≡ [])
  consume_all-once calls p =
      let spent = consume_all-spends calls (started p) (started-IsValid p) in
      (
        omega (arith, spent, started-whereabouts p),
        λ one.
            length-zero (whereabouts (consume_all calls (started p)).0)
              (omega (arith, spent, started-whereabouts p, one)),
      )
