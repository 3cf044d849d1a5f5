-- ===== src/Runtime/Bridge/Refused.antt =====
-- src/runtime.rs: a `start_bridge` that raises.
use processkit_py.Common.{
  ℕ, ◌≡◌, ◌⊎◌, ◌<◌, ◌≤◌, ◌==◌, refl, false, Option, none, some, Result, ok, err, arith, sym, ap,
  ◌∙◌, Bool-cases, Result-cases, inl, inr, lookup, insert, lookup-remove, lookup-insert,
}
use processkit_py.Errors.{PyErr}
use processkit_py.Hub.{HubEntry, CompletionHub, register, cancel}
use processkit_py.Runtime.Completion.{World, waiting, update}
use processkit_py.Runtime.Bridge.{
  Machine, Request, create_completion_hub, completion_hub, hooked, registered, with_future, on_loop,
  start_bridge,
}
use processkit_py.Runtime.Bridge.Settled.{Fresh, completion_hub-Fresh, register-open}

-- The hubs that there were have the registrations that they had, and a hub that is new has none.
abbrev pub Kept : {A : Type 0} → Machine A → Machine A → Type 0
Kept m n =
    ((h k : ℕ) → h < m.made → lookup k (n.hubs h).entries ≡ lookup k (m.hubs h).entries)
    × ((h k : ℕ) → m.made ≤ h → h < n.made → lookup k (n.hubs h).entries ≡ none)

-- No hub has registered the identifier that it gives next.
abbrev pub Unused : {A : Type 0} → Machine A → Type 0
Unused m = (h : ℕ) → lookup (m.hubs h).next_id (m.hubs h).entries ≡ none

-- An identifier that was registered and cancelled leaves nothing.
cancelled-Kept :
    (e : HubEntry) (hub : CompletionHub) (k : ℕ)
    → lookup hub.next_id hub.entries ≡ none
    → lookup k (cancel hub.next_id (register e hub).0).entries ≡ lookup k hub.entries
unfolding cancel register
cancelled-Kept e hub k unused = ground (
  arith,
  lookup-remove hub.next_id k (insert hub.next_id e hub.entries),
  lookup-insert hub.next_id k e hub.entries,
  lookup-remove hub.next_id k hub.entries,
  unused,
)

module _ {A : Type 0} where
  same-Kept : (m : Machine A) → Kept m m
  same-Kept m = (λ h k made. refl, λ h k new made. absurd (omega arith))

  completion_hub-Kept :
      (create_error : Option PyErr) (event_loop : ℕ) (m : Machine A)
      → Unused m
      → Kept m (completion_hub create_error event_loop m).0
        × Unused (completion_hub create_error event_loop m).0
        × ((e : PyErr)
            → (completion_hub create_error event_loop m).1 ≡ err e
            → create_error ≡ some e)
  unfolding completion_hub create_completion_hub lookup
  completion_hub-Kept create_error event_loop m unused = (
    (λ h k made. ground arith, λ h k new made. ground arith),
    λ h. ground (arith, unused h),
    λ e raises. ground arith,
  )

  registered-made :
      (hook : Option PyErr) (entry : HubEntry) (r : Result PyErr ℕ) (m : Machine A)
      → (registered hook entry (m, r)).0.made ≡ m.made
  unfolding registered hooked
  registered-made hook entry r m = ground arith

  registered-Kept :
      (hook : Option PyErr) (entry : HubEntry) (r : Result PyErr ℕ) (m : Machine A) (e : PyErr)
      → Unused m
      → ((h : ℕ) → r ≡ ok h → (m.hubs h).closed ≡ false)
      → (registered hook entry (m, r)).1 ≡ err e
      → ((h k : ℕ)
          → lookup k ((registered hook entry (m, r)).0.hubs h).entries
            ≡ lookup k (m.hubs h).entries)
        × ((r ≡ err e) ⊎ (hook ≡ some e))
  unfolding registered hooked
  registered-Kept hook entry (err error) m e unused usable raises =
      (λ h k. refl, inl (ground arith))
  registered-Kept none entry (ok hub) m e unused usable raises =
      let no_way : ⊥ = ground (arith, register-open entry (m.hubs hub) (usable hub refl)) in
      elim no_way [ ]
  registered-Kept (some error) entry (ok hub) m e unused usable raises =
      rw (register-open entry (m.hubs hub) (usable hub refl)) (
        λ h k. elim (Bool-cases (hub == h)) [
          | inl same ↦ ground (arith, cancelled-Kept entry (m.hubs hub) k (unused hub), same)
          | inr other ↦ rw other refl
        ],
        inr (ground (arith, register-open entry (m.hubs hub) (usable hub refl))),
      )

  -- Where no hub has published or registered the identifier that it gives next, a `start_bridge`, for a
  -- Future and a cell of its own, that raises has added no registration to any hub, one that it has made
  -- included, and taken none away, and raises what the context of the call, the creation of the Future,
  -- that of a hub, or `add_done_callback` has raised: a hub that it is given is never closed.
  pub start_bridge-refused :
      (r : Request) (f : ℕ) (m : Machine A) (e : PyErr)
      → Fresh f r.cell m
      → Unused m
      → (start_bridge r m).1 ≡ err e
      → Kept m (start_bridge r m).0
        × ((r.locals ≡ err e)
            ⊎ (r.future ≡ err e)
            ⊎ (r.create_error ≡ some e)
            ⊎ (r.callback_error ≡ some e))
  unfolding start_bridge on_loop with_future
  start_bridge-refused r f m e fresh unused raises = elim (Result-cases r.locals) [
    | inl (error, failed) ↦ rw failed (same-Kept m, inl (ground (arith, failed)))
    | inr (event_loop, located) ↦ elim (Result-cases r.future) [
      | inl (error, failed) ↦
          rw (located, failed) (same-Kept m, inr (inl (ground (arith, located, failed))))
      | inr (future, created) ↦
          let w : World A = record m.world { futures = update m.world.futures future waiting } in
          let n : Machine A = record m { world = w } in
          let fresh' : Fresh f r.cell n = record {
            anchored = fresh.anchored;
            unready = fresh.unready;
            unshared = fresh.unshared;
          } in
          let entry : HubEntry = record { future = future; completion = r.cell } in
          let found = completion_hub r.create_error event_loop n in
          let (kept, still_unused, create_raised) =
            completion_hub-Kept r.create_error event_loop n unused in
          let (still_fresh, usable) =
            completion_hub-Fresh f r.cell r.create_error event_loop n fresh' in
          let same : start_bridge r m ≡ registered r.callback_error entry found =
            rw (located, created) refl in
          let (same_entries, origin) =
            registered-Kept r.callback_error entry found.1 found.0 e still_unused
              (λ h given. (usable h given).1) (sym (ap (λ t. t.1) same) ∙ raises) in
          let as_many = registered-made r.callback_error entry found.1 found.0 in
          rw same (
            (
              λ h k made. same_entries h k ∙ kept.0 h k made,
              λ h k new made. same_entries h k ∙ kept.1 h k new (omega (arith, as_many)),
            ),
            elim origin [
              | inl failed ↦ inr (inr (inl (create_raised e failed)))
              | inr failed ↦ inr (inr (inr failed))
            ],
          )
    ]
  ]
