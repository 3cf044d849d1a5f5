-- ===== src/Runtime/Bridge/InFlight.antt =====
-- src/runtime.rs: an operation in flight, while others begin, end and are delivered.
use processkit_py.Common.{
  ℕ, ◌≡◌, ◌≢◌, ◌<◌, ◌==◌, refl, Bool, true, false, Option, none, some, List, [], ◌∷◌, Result, ok,
  err, arith, All, inl, inr, ◌∙◌, Bool-cases, Result-cases, Option-cases, subst,
}
use processkit_py.Errors.{PyErr}
use processkit_py.Hub.{HubEntry, CompletionHub, new_hub, register, cancel, publish, is_closed}
use processkit_py.Hub.System.{wake_callback, idle_callback, received}
use processkit_py.Runtime.Completion.{
  World, waiting, pending, CompletionState, complete_entry, complete_entry-apart, complete_all,
  store, update,
}
use processkit_py.Runtime.Bridge.{
  Machine, Request, Operation, set_hub, create_completion_hub, completion_hub, existing_or, hooked,
  registered, published, resolved, with_future, on_loop, start_bridge, deliver, idle,
}
use processkit_py.Runtime.Bridge.Hubs.{
  Differs, At, new_hub-At, register-At, cancel-At, idle-At, publish-At, deliver-At,
}

pub update_all :
    {V : Type 0} (P : ℕ → V → Type 0) (f : ℕ → V) (k : ℕ) (v : V)
    → ((j : ℕ) → P j (f j))
    → P k v
    → (j : ℕ) → P j (update f k v j)
update_all P f k v all new j = elim (Bool-cases (k == j)) [
  | inl same ↦ let moved : k ≡ j = ground arith in rw same (subst (λ i. P i v) moved new)
  | inr other ↦ rw other (all j)
]

register-id :
    (e : HubEntry) (hub : CompletionHub) (id : ℕ) → (register e hub).1 ≡ some id → id ≡ hub.next_id
unfolding register
register-id e hub id h = ground arith

-- Nothing is completed by the idle callback.
idle_callback-done : (hub : CompletionHub) → (idle_callback true hub).1 ≡ []
unfolding idle_callback
idle_callback-done hub = ground arith

-- A request whose Future and cell are not those of the operation.
abbrev pub ApartFrom : Operation → Request → Type 0
ApartFrom op r = ((f : ℕ) → r.future ≡ ok f → f ≢ op.entry.future) × (r.cell ≢ op.entry.completion)

module _ {A : Type 0} where
  -- `op` is registered in its open hub, published as `is_ready` says, its Future waits, its cell holds
  -- `cell`, and no other entry of any hub has its Future or its cell.
  pub record Flying (op : Operation) (is_ready : Bool) (cell : CompletionState A) (m : Machine A)
      : Type 0 where
    pub hubs : (h : ℕ) → At op is_ready (h == op.hub) (m.hubs h)
    pub made : op.hub < m.made
    pub waits : m.world.futures op.entry.future ≡ waiting
    pub holds : m.world.cells op.entry.completion ≡ cell

  module _ (op : Operation) (is_ready : Bool) (cell : CompletionState A) where
    set_hub-Flying :
        (m : Machine A) (h : ℕ) (hub : CompletionHub)
        → Flying op is_ready cell m
        → At op is_ready (h == op.hub) hub
        → Flying op is_ready cell (set_hub h hub m)
    set_hub-Flying m h hub f at = record {
      hubs = update_all (λ j. At op is_ready (j == op.hub)) m.hubs h hub f.hubs at;
      made = f.made;
      waits = f.waits;
      holds = f.holds;
    }

    create-Flying :
        (create_error : Option PyErr) (event_loop : ℕ) (m : Machine A)
        → Flying op is_ready cell m
        → Flying op is_ready cell (create_completion_hub create_error event_loop m).0
          × ((create_completion_hub create_error event_loop m).0.hubs op.hub ≡ m.hubs op.hub)
    unfolding create_completion_hub
    create-Flying (some e) event_loop m f = (f, refl)
    create-Flying none event_loop m f =
        let hub_made = f.made in
        (
          record {
            hubs =
                update_all (λ j. At op is_ready (j == op.hub)) m.hubs m.made new_hub f.hubs
                  (new_hub-At op is_ready (m.made == op.hub) new_hub (ground arith));
            made = omega (arith, hub_made);
            waits = f.waits;
            holds = f.holds;
          },
          ground (arith, hub_made),
        )

    completion_hub-Flying :
        (create_error : Option PyErr) (event_loop : ℕ) (m : Machine A)
        → Flying op is_ready cell m
        → Flying op is_ready cell (completion_hub create_error event_loop m).0
          × ((completion_hub create_error event_loop m).0.hubs op.hub ≡ m.hubs op.hub)
    unfolding completion_hub existing_or
    completion_hub-Flying create_error event_loop m f = elim (Option-cases (m.anchors event_loop)) [
      | inl none_yet ↦ rw none_yet (create-Flying create_error event_loop m f)
      | inr (h, found) ↦ elim (Bool-cases (is_closed (m.hubs h))) [
        | inl was_closed ↦ rw (found, was_closed) (create-Flying create_error event_loop m f)
        | inr is_open ↦ rw (found, is_open) (f, refl)
      ]
    ]

    hooked-Flying :
        (hook : Option PyErr) (h : ℕ) (e : HubEntry) (id : Option ℕ) (m : Machine A)
        → ((i : ℕ) → id ≡ some i → (h == op.hub) ≡ true → i ≢ op.id)
        → Flying op is_ready cell m
        → Flying op is_ready cell (hooked hook h e id m).0
    unfolding hooked
    hooked-Flying hook h e none m other f = f
    hooked-Flying none h e (some i) m other f = f
    hooked-Flying (some error) h e (some i) m other f =
        set_hub-Flying m h (cancel i (m.hubs h)) f
          (cancel-At op is_ready (h == op.hub) (m.hubs h) i (other i refl) (f.hubs h))

    registered-Flying :
        (hook : Option PyErr) (e : HubEntry) (r : Result PyErr ℕ) (m : Machine A)
        → Differs op.entry e
        → (m.hubs op.hub).next_id ≢ op.id
        → Flying op is_ready cell m
        → Flying op is_ready cell (registered hook e (m, r)).0
    unfolding registered
    registered-Flying hook e (err error) m differs fresh f = f
    registered-Flying hook e (ok h) m differs fresh f =
        let w : World A = record m.world { cells = update m.world.cells e.completion pending } in
        let n : Machine A = record m { world = w } in
        let g : Flying op is_ready cell n = record {
          hubs = f.hubs;
          made = f.made;
          waits = f.waits;
          holds = ground (arith, f.holds, differs);
        } in
        let fresh_in : (h == op.hub) ≡ true → (m.hubs h).next_id ≢ op.id =
          λ same. ground (arith, fresh) in
        hooked-Flying hook h e (register e (m.hubs h)).1 (set_hub h (register e (m.hubs h)).0 n)
          (λ i given same. ground (arith, fresh_in same, register-id e (m.hubs h) i given))
          (set_hub-Flying n h (register e (m.hubs h)).0 g
            (register-At op is_ready (h == op.hub) (m.hubs h) e differs fresh_in (f.hubs h)))

    pub start_bridge-Flying :
        (r : Request) (m : Machine A)
        → ApartFrom op r
        → (m.hubs op.hub).next_id ≢ op.id
        → Flying op is_ready cell m
        → Flying op is_ready cell (start_bridge r m).0
    unfolding start_bridge on_loop with_future
    start_bridge-Flying r m apart fresh f = elim (Result-cases r.locals) [
      | inl (error, raised) ↦ rw raised f
      | inr (event_loop, located) ↦ elim (Result-cases r.future) [
        | inl (error, raised) ↦ rw (located, raised) f
        | inr (future, created) ↦
            let w : World A = record m.world { futures = update m.world.futures future waiting } in
            let n : Machine A = record m { world = w } in
            let g : Flying op is_ready cell n = record {
              hubs = f.hubs;
              made = f.made;
              waits = ground (arith, f.waits, apart.0 future created);
              holds = f.holds;
            } in
            let (flies, same) = completion_hub-Flying r.create_error event_loop n g in
            rw (located, created)
              (registered-Flying r.callback_error (record { future = future; completion = r.cell })
                (completion_hub r.create_error event_loop n).1
                (completion_hub r.create_error event_loop n).0 (apart.0 future created, apart.1)
                (rw same fresh) flies)
      ]
    ]

    pub publish-Flying :
        (write_ok : Bool) (other : Operation) (r : Option (Result PyErr A)) (m : Machine A)
        → ((other.hub == op.hub) ≡ true → other.id ≢ op.id)
        → other.entry.completion ≢ op.entry.completion
        → Flying op is_ready cell m
        → Flying op is_ready cell (published write_ok other r m)
    unfolding published store
    publish-Flying write_ok other none m apart cells f = f
    publish-Flying write_ok other (some r) m apart cells f =
        let w : World A = store other.entry.completion r m.world in
        let n : Machine A = record m { world = w } in
        let g : Flying op is_ready cell n = record {
          hubs = f.hubs;
          made = f.made;
          waits = f.waits;
          holds = ground (arith, f.holds, cells);
        } in
        set_hub-Flying n other.hub (publish write_ok other.id (m.hubs other.hub)).0 g (
          publish-At op is_ready (other.hub == op.hub) (m.hubs other.hub) write_ok other.id apart
            (f.hubs other.hub))

    complete_all-keeps :
        (convert : A → Result PyErr ℕ) (es : List HubEntry) (w : World A)
        → All (Differs op.entry) es
        → ((complete_all convert es w).futures op.entry.future ≡ w.futures op.entry.future)
          × ((complete_all convert es w).cells op.entry.completion ≡ w.cells op.entry.completion)
    unfolding complete_all
    complete_all-keeps convert [] w differ = (refl, refl)
    complete_all-keeps convert (e ∷ es) w differ =
        let (f, c) = complete_entry-apart convert e op.entry w differ.0.0 differ.0.1 in
        let (f', c') = complete_all-keeps convert es (complete_entry convert e w) differ.1 in
        (f' ∙ f, c' ∙ c)

    pub deliver-Flying :
        (convert : A → Result PyErr ℕ) (h : ℕ) (m : Machine A)
        → ((h == op.hub) ≡ true → is_ready ≡ false)
        → Flying op is_ready cell m
        → Flying op is_ready cell (deliver convert h m)
    unfolding deliver resolved
    deliver-Flying convert h m unready f =
        let called = wake_callback received (m.hubs h) in
        let (at, differ) = deliver-At op is_ready (h == op.hub) (m.hubs h) unready (f.hubs h) in
        let (same_future, same_cell) = complete_all-keeps convert called.1 m.world differ in
        let n : Machine A = record m { world = complete_all convert called.1 m.world } in
        let g : Flying op is_ready cell n = record {
          hubs = f.hubs;
          made = f.made;
          waits = same_future ∙ f.waits;
          holds = same_cell ∙ f.holds;
        } in
        set_hub-Flying n h called.0 g at

    pub idle-Flying :
        (convert : A → Result PyErr ℕ) (h : ℕ) (m : Machine A)
        → Flying op is_ready cell m
        → Flying op is_ready cell (idle convert h m)
    unfolding idle resolved complete_all
    idle-Flying convert h m f = rw (idle_callback-done (m.hubs h)) (
        set_hub-Flying m h (idle_callback true (m.hubs h)).0 f
          (idle-At op is_ready (h == op.hub) (m.hubs h) (m.hubs h).entries refl (f.hubs h)))
