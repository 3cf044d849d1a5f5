-- ===== src/Runtime/Bridge/Settled.antt =====
-- src/runtime.rs: an operation that is started, goes through any interleaving, ends, and is delivered.
use processkit_py.Common.{
  ℕ, ◌≡◌, ◌≢◌, ◌<◌, ◌==◌, ◌∙◌, sym, ap, refl, Bool, true, false, Option, none, some, Result, ok,
  err, arith, ◌>>=◌, Bool-cases, Option-cases, Result-cases, inl, inr, subst, lookup, contains,
  lookup-insert,
}
use processkit_py.Errors.{PyErr}
use processkit_py.Hub.{HubEntry, CompletionHub, new_hub, register, is_closed}
use processkit_py.Runtime.Completion.{
  World, waiting, pending, ready, CompletionState, Joined, bridge_result, settle, update,
}
use processkit_py.Runtime.Bridge.{
  Machine, Request, Operation, create_completion_hub, completion_hub, existing_or, hooked,
  registered, with_future, on_loop, start_bridge, finish, deliver, idle,
}
use processkit_py.Runtime.Bridge.Hubs.{At}
use processkit_py.Runtime.Bridge.InFlight.{
  update_all, Flying, ApartFrom, start_bridge-Flying, publish-Flying, deliver-Flying, idle-Flying,
}
use processkit_py.Runtime.Bridge.Outcome.{finish-own, deliver-own}

pub register-open :
    (e : HubEntry) (hub : CompletionHub)
    → hub.closed ≡ false
    → (register e hub).1 ≡ some hub.next_id
unfolding register
register-open e hub h = ground arith

module _ {A : Type 0} where
  -- The Future `f` and the cell `c` are new, no hub has published the identifier that it gives next,
  -- and the anchors are hubs that were made.
  pub record Fresh (f c : ℕ) (m : Machine A) : Type 0 where
    pub anchored : (event_loop h : ℕ) → m.anchors event_loop ≡ some h → h < m.made
    pub unready : (h : ℕ) → contains (m.hubs h).next_id (m.hubs h).ready ≡ false
    pub unshared :
        (h k : ℕ) (d : HubEntry)
        → lookup k (m.hubs h).entries ≡ some d
        → (d.future ≢ f) × (d.completion ≢ c)

  -- A hub that can be given to a new operation.
  abbrev pub Usable : Machine A → ℕ → Type 0
  Usable m h = (h < m.made) × ((m.hubs h).closed ≡ false)

  module _ (f c : ℕ) where
    create-Fresh :
        (create_error : Option PyErr) (event_loop : ℕ) (m : Machine A)
        → Fresh f c m
        → Fresh f c (create_completion_hub create_error event_loop m).0
          × ((h : ℕ)
              → (create_completion_hub create_error event_loop m).1 ≡ ok h
              → Usable (create_completion_hub create_error event_loop m).0 h)
    unfolding create_completion_hub contains lookup
    create-Fresh (some e) event_loop m fresh = (fresh, λ h made. ground arith)
    create-Fresh none event_loop m fresh = (
      record {
        anchored = λ l h anchor. ground (arith, fresh.anchored l h);
        unready =
            update_all (λ j hub. contains hub.next_id hub.ready ≡ false) m.hubs m.made new_hub
              fresh.unready refl;
        unshared =
            update_all
              (λ j hub.
                (k : ℕ) (d : HubEntry)
                → lookup k hub.entries ≡ some d
                → (d.future ≢ f) × (d.completion ≢ c))
              m.hubs m.made new_hub fresh.unshared (λ k d found. ground arith);
      },
      λ h made. ground arith,
    )

    pub completion_hub-Fresh :
        (create_error : Option PyErr) (event_loop : ℕ) (m : Machine A)
        → Fresh f c m
        → Fresh f c (completion_hub create_error event_loop m).0
          × ((h : ℕ)
              → (completion_hub create_error event_loop m).1 ≡ ok h
              → Usable (completion_hub create_error event_loop m).0 h)
    unfolding completion_hub existing_or is_closed
    completion_hub-Fresh create_error event_loop m fresh =
        elim (Option-cases (m.anchors event_loop)) [
          | inl none_yet ↦ rw none_yet (create-Fresh create_error event_loop m fresh)
          | inr (h, found) ↦ elim (Bool-cases (m.hubs h).closed) [
            | inl was_closed ↦ rw (found, was_closed) (create-Fresh create_error event_loop m fresh)
            | inr is_open ↦
                rw (found, is_open)
                  (fresh, λ j same. ground (arith, fresh.anchored event_loop h found, is_open))
          ]
        ]

  abbrev begun : ℕ → HubEntry → Machine A → Operation
  begun h e m = record { hub = h; id = (m.hubs h).next_id; entry = e }

  register-begun :
      (h : ℕ) (e : HubEntry) (m : Machine A)
      → Fresh e.future e.completion m
      → Usable m h
      → (j : ℕ) → At (begun h e m) false (j == h) (update m.hubs h (register e (m.hubs h)).0 j)
  unfolding register
  register-begun h e m fresh usable j = elim (Bool-cases (h == j)) [
    | inl same ↦
        let is_h : (j == h) ≡ true = ground arith in
        rw (same, is_h)
          (record {
            registered = λ own. ground (
              arith,
              lookup-insert (m.hubs h).next_id (m.hubs h).next_id e (m.hubs h).entries,
              usable.1,
            );
            published = λ own. ground (arith, fresh.unready h, usable.1);
            still_open = λ own. ground (arith, usable.1);
            alone = λ k d found apart. ground (
              arith,
              lookup-insert (m.hubs h).next_id k e (m.hubs h).entries,
              fresh.unshared h k d,
              usable.1,
            );
          })
    | inr other ↦
        let not_h : (j == h) ≡ false = ground arith in
        rw (other, not_h)
          (record {
            registered = λ own. ground arith;
            published = λ own. ground arith;
            still_open = λ own. ground arith;
            alone = λ k d found apart. fresh.unshared j k d found;
          })
  ]

  registered-begun :
      (h : ℕ) (e : HubEntry) (m : Machine A)
      → Fresh e.future e.completion m
      → Usable m h
      → m.world.futures e.future ≡ waiting
      → ((registered none e (m, ok h)).1 ≡ ok (begun h e m))
        × Flying (begun h e m) false pending (registered none e (m, ok h)).0
  unfolding registered hooked
  registered-begun h e m fresh usable waits = rw (register-open e (m.hubs h) usable.1) (
    refl,
    record {
      hubs = register-begun h e m fresh usable;
      made = usable.0;
      waits = waits;
      holds = ground arith;
    },
  )

  registered-own :
      (hook : Option PyErr) (e : HubEntry) (r : Result PyErr ℕ) (m : Machine A) (op : Operation)
      → Fresh e.future e.completion m
      → ((h : ℕ) → r ≡ ok h → Usable m h)
      → m.world.futures e.future ≡ waiting
      → (registered hook e (m, r)).1 ≡ ok op
      → Flying op false pending (registered hook e (m, r)).0 × (op.entry ≡ e)
  unfolding registered hooked
  registered-own hook e (err error) m op fresh usable waits h =
      let no_way : ⊥ = ground arith in elim no_way [ ]
  registered-own (some error) e (ok hub) m op fresh usable waits h =
      let no_way : ⊥ = ground (arith, register-open e (m.hubs hub) (usable hub refl).1) in
      elim no_way [ ]
  registered-own none e (ok hub) m op fresh usable waits h =
      let (is_begun, flies) = registered-begun hub e m fresh (usable hub refl) waits in
      let same : begun hub e m ≡ op = ground (arith, is_begun) in
      subst (λ o. Flying o false pending (registered none e (m, ok hub)).0 × (o.entry ≡ e)) same
        (flies, refl)

  completion_hub-world :
      (create_error : Option PyErr) (event_loop : ℕ) (m : Machine A)
      → (completion_hub create_error event_loop m).0.world ≡ m.world
  unfolding completion_hub existing_or create_completion_hub
  completion_hub-world create_error event_loop m = ground arith

  -- An operation that `start_bridge` has returned is in flight, with its own Future and cell.
  start_bridge-own :
      (r : Request) (f : ℕ) (m : Machine A) (op : Operation)
      → r.future ≡ ok f
      → Fresh f r.cell m
      → (start_bridge r m).1 ≡ ok op
      → Flying op false pending (start_bridge r m).0
        × (op.entry ≡ record { future = f; completion = r.cell })
  unfolding start_bridge on_loop with_future
  start_bridge-own r f m op created fresh h = elim (Result-cases r.locals) [
    | inl (error, failed) ↦ let no_way : ⊥ = ground (arith, failed) in elim no_way [ ]
    | inr (event_loop, located) ↦
        let w : World A = record m.world { futures = update m.world.futures f waiting } in
        let n : Machine A = record m { world = w } in
        let fresh' : Fresh f r.cell n = record {
          anchored = fresh.anchored;
          unready = fresh.unready;
          unshared = fresh.unshared;
        } in
        let found = completion_hub r.create_error event_loop n in
        let (still_fresh, usable) =
          completion_hub-Fresh f r.cell r.create_error event_loop n fresh' in
        let entry : HubEntry = record { future = f; completion = r.cell } in
        let waits : found.0.world.futures f ≡ waiting =
          rw (completion_hub-world r.create_error event_loop n) (ground arith) in
        let same : start_bridge r m ≡ registered r.callback_error entry found =
          rw (located, created) refl in
        rw same (
          registered-own r.callback_error entry found.1 found.0 op still_fresh usable waits
            (sym (ap (λ t. t.1) same) ∙ h))
  ]

-- What else may happen while `op` is in flight, published as `is_ready` says: other operations begin,
-- with Futures and cells of their own and without the identifier of `op`, others' tasks end, and hubs
-- are delivered or found idle, but its own hub is not delivered once it is published.
pub data Meanwhile {A : Type 0} (op : Operation) (is_ready : Bool) (m : Machine A)
    : Machine A → Type 0 where
  nothing : Meanwhile op is_ready m m
  begins :
      {n : Machine A} (r : Request)
      → Meanwhile op is_ready m n
      → ApartFrom op r
      → (n.hubs op.hub).next_id ≢ op.id
      → Meanwhile op is_ready m (start_bridge r n).0
  ends :
      {n : Machine A} (write_ok : Bool) (other : Operation) (joined : Joined A)
      → Meanwhile op is_ready m n
      → ((other.hub == op.hub) ≡ true → other.id ≢ op.id)
      → other.entry.completion ≢ op.entry.completion
      → Meanwhile op is_ready m (finish write_ok other joined n)
  delivers :
      {n : Machine A} (convert : A → Result PyErr ℕ) (h : ℕ)
      → Meanwhile op is_ready m n
      → ((h == op.hub) ≡ true → is_ready ≡ false)
      → Meanwhile op is_ready m (deliver convert h n)
  idles :
      {n : Machine A} (convert : A → Result PyErr ℕ) (h : ℕ)
      → Meanwhile op is_ready m n
      → Meanwhile op is_ready m (idle convert h n)

module _ {A : Type 0} (op : Operation) (is_ready : Bool) (cell : CompletionState A) where
  Meanwhile-Flying :
      {m n : Machine A}
      → Meanwhile op is_ready m n
      → Flying op is_ready cell m
      → Flying op is_ready cell n
  unfolding finish
  Meanwhile-Flying nothing f = f
  Meanwhile-Flying (begins {n} r before apart fresh) f =
      start_bridge-Flying op is_ready cell r n apart fresh (Meanwhile-Flying before f)
  Meanwhile-Flying (ends {n} write_ok other joined before apart cells) f =
      publish-Flying op is_ready cell write_ok other (bridge_result joined) n apart cells
        (Meanwhile-Flying before f)
  Meanwhile-Flying (delivers {n} convert h before unready) f =
      deliver-Flying op is_ready cell convert h n unready (Meanwhile-Flying before f)
  Meanwhile-Flying (idles {n} convert h before) f =
      idle-Flying op is_ready cell convert h n (Meanwhile-Flying before f)

module _ {A : Type 0} where
  -- An awaited operation settles its own Future with its own outcome: if `start_bridge` gives the
  -- operation `op`, with a Future and a cell that are new, then whatever other operations begin, end
  -- and are delivered meanwhile, on the same hub or on others, and whatever hubs are found idle, once
  -- its task has ended with an outcome, the next delivery of its hub resolves its Future with the
  -- converted value, or fails it with the exception of the work or of the conversion.
  pub start_bridge-settles :
      (r : Request) (f : ℕ) (m : Machine A) (op : Operation) (n n' : Machine A) (write_ok : Bool)
      (joined : Joined A) (outcome : Result PyErr A) (convert : A → Result PyErr ℕ)
      → r.future ≡ ok f
      → Fresh f r.cell m
      → (start_bridge r m).1 ≡ ok op
      → Meanwhile op false (start_bridge r m).0 n
      → bridge_result joined ≡ some outcome
      → Meanwhile op true (finish write_ok op joined n) n'
      → (deliver convert op.hub n').world.futures f ≡ settle (outcome >>= convert)
  start_bridge-settles r f m op n n' write_ok joined outcome convert created fresh started before
        ended after =
      let (flies, own_entry) = start_bridge-own r f m op created fresh started in
      let in_flight = Meanwhile-Flying op false pending before flies in
      let published = finish-own op write_ok joined outcome n ended in_flight in
      let settled =
        deliver-own op convert outcome n'
          (Meanwhile-Flying op true (ready outcome) after published) in
      subst (λ e. (deliver convert op.hub n').world.futures e.future ≡ settle (outcome >>= convert))
        own_entry settled
