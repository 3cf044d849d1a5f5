-- ===== src/Runtime/Bridge/Hubs.antt =====
-- src/runtime.rs, lines 283 to 417: what the methods of a hub leave of one operation.
use processkit_py.Common.{
  ℕ, ◌≡◌, ◌≢◌, ◌⊎◌, refl, Bool, true, false, some, List, [], ◌∷◌, ◌++◌, arith, Option-cases, inl,
  inr, ◌||◌, lookup, contains, lookup-insert, lookup-remove, remove, contains_key, All,
}
use processkit_py.Hub.{
  collect_ready, take_ready, HubEntry, CompletionHub, new_hub, register, cancel, publish,
  publish_enqueue, wake, close, has_entries,
}
use processkit_py.Hub.Delivery.{lookup-collect_ready}
use processkit_py.Hub.System.{wake_callback, received, idle_callback, wake_callback, received}
use processkit_py.Runtime.Bridge.{Operation}

-- The Future and the cell of the entry belong to it alone.
abbrev pub Differs : HubEntry → HubEntry → Type 0
Differs e d = (d.future ≢ e.future) × (d.completion ≢ e.completion)

-- What a hub has of the operation: if it is the operation's own, `mine`, then its entry, published as
-- `is_ready` says; and no other entry with its Future or its cell.
pub record At (op : Operation) (is_ready mine : Bool) (hub : CompletionHub) : Type 0 where
  pub registered : mine ≡ true → lookup op.id hub.entries ≡ some op.entry
  pub published : mine ≡ true → contains op.id hub.ready ≡ is_ready
  pub still_open : mine ≡ true → hub.closed ≡ false
  pub alone :
      (k : ℕ) (d : HubEntry)
      → lookup k hub.entries ≡ some d
      → (mine ≡ false) ⊎ (k ≢ op.id)
      → Differs op.entry d

contains-append :
    (id : ℕ) (xs ys : List ℕ) → contains id (xs ++ ys) ≡ (contains id xs || contains id ys)
unfolding contains
contains-append id [] ys = refl
contains-append id (x ∷ xs) ys = ground (arith, contains-append id xs ys)

module _ (op : Operation) (is_ready mine : Bool) (hub : CompletionHub) where
  pub new_hub-At : mine ≡ false → At op is_ready mine new_hub
  unfolding lookup
  new_hub-At other = record {
    registered = λ h. ground arith;
    published = λ h. ground arith;
    still_open = λ h. ground arith;
    alone = λ k d h. ground arith;
  }

  pub register-At :
      (e : HubEntry)
      → Differs op.entry e
      → (mine ≡ true → hub.next_id ≢ op.id)
      → At op is_ready mine hub
      → At op is_ready mine (register e hub).0
  unfolding register
  register-At e differs fresh at = record {
    registered = λ h.
        ground (arith, fresh h, at.registered h, lookup-insert hub.next_id op.id e hub.entries);
    published = λ h. ground (arith, at.published h);
    still_open = λ h. ground (arith, at.still_open h);
    alone = λ k d h other. ground (arith, at.alone k d, lookup-insert hub.next_id k e hub.entries);
  }

  pub cancel-At :
      (id : ℕ)
      → (mine ≡ true → id ≢ op.id)
      → At op is_ready mine hub
      → At op is_ready mine (cancel id hub)
  unfolding cancel
  cancel-At id other at = record {
    registered = λ h. ground (arith, other h, at.registered h, lookup-remove id op.id hub.entries);
    published = at.published;
    still_open = at.still_open;
    alone = λ k d h o. ground (arith, at.alone k d, lookup-remove id k hub.entries);
  }

  pub idle-At :
      (entries : List (ℕ × HubEntry))
      → hub.entries ≡ entries
      → At op is_ready mine hub
      → At op is_ready mine (idle_callback true hub).0
  unfolding idle_callback has_entries close lookup
  idle-At [] none_left at = record {
    registered = λ h. ground (arith, at.registered h, none_left);
    published = λ h. ground (arith, at.registered h, none_left);
    still_open = λ h. ground (arith, at.registered h, none_left);
    alone = λ k d h. ground (arith, none_left);
  }
  idle-At (e ∷ entries) some_left at = record {
    registered = λ h. ground (arith, at.registered h, some_left);
    published = λ h. ground (arith, at.published h, some_left);
    still_open = λ h. ground (arith, at.still_open h, some_left);
    alone = λ k d h. ground (arith, at.alone k d, some_left);
  }

  pub publish-At :
      (write_ok : Bool) (id : ℕ)
      → (mine ≡ true → id ≢ op.id)
      → At op is_ready mine hub
      → At op is_ready mine (publish write_ok id hub).0
  unfolding publish publish_enqueue wake contains
  publish-At write_ok id other at = record {
    registered = λ h. ground (arith, at.registered h);
    published =
        λ h. ground (arith, at.published h, other h, contains-append op.id hub.ready (id ∷ []));
    still_open = λ h. ground (arith, at.still_open h);
    alone = λ k d h o. ground (arith, at.alone k d);
  }

module _ (op : Operation) (hub : CompletionHub) where
  -- The publication of the operation itself.
  pub publish-own-At :
      (write_ok : Bool) → At op false true hub → At op true true (publish write_ok op.id hub).0
  unfolding publish publish_enqueue wake contains contains_key
  publish-own-At write_ok at = record {
    registered = λ h. ground (arith, at.registered h);
    published = λ h. ground (
      arith,
      at.published h,
      at.registered h,
      at.still_open h,
      contains-append op.id hub.ready (op.id ∷ []),
    );
    still_open = λ h. ground (arith, at.still_open h);
    alone = λ k d h o. ground (arith, at.alone k d);
  }

-- What is handed over, if the operation is not, is other operations' entries.
collect_ready-Differs :
    (e : HubEntry) (ids : List ℕ) (entries : List (ℕ × HubEntry))
    → ((k : ℕ) (d : HubEntry) → contains k ids ≡ true → lookup k entries ≡ some d → Differs e d)
    → All (Differs e) (collect_ready ids entries).0
unfolding collect_ready contains
collect_ready-Differs e [] entries alone = tt
collect_ready-Differs e (id ∷ ids) entries alone =
    let rest =
      collect_ready-Differs e ids (remove id entries)
        (λ k d among found. ground (arith, alone k d, lookup-remove id k entries)) in
    elim (Option-cases (lookup id entries)) [
      | inl missing ↦ ground (arith, rest)
      | inr (d, found) ↦ ground (arith, rest, alone id d)
    ]

module _ (op : Operation) (is_ready mine : Bool) (hub : CompletionHub) where
  pub deliver-At :
      (mine ≡ true → is_ready ≡ false)
      → At op is_ready mine hub
      → At op is_ready mine (wake_callback received hub).0
        × All (Differs op.entry) (wake_callback received hub).1
  unfolding wake_callback take_ready contains
  deliver-At unready at = (
    record {
      registered = λ h. ground (
        arith,
        at.registered h,
        at.published h,
        unready h,
        lookup-collect_ready hub.ready hub.entries op.id,
      );
      published = λ h. ground (arith, unready h);
      still_open = λ h. ground (arith, at.still_open h);
      alone = λ k d h o. ground (arith, at.alone k d, lookup-collect_ready hub.ready hub.entries k);
    },
    collect_ready-Differs op.entry hub.ready hub.entries
        (λ k d among found. ground (arith, at.alone k d, at.published, unready)),
  )
