-- ===== src/Runtime/Bridge/Outcome.antt =====
-- src/runtime.rs: the way of one operation from `start_bridge` to its Future.
use processkit_py.Common.{
  ℕ, ◌≡◌, ◌≢◌, ◌==◌, ap, refl, Bool, true, false, some, List, [], ◌∷◌, ◌++◌, Result, arith, ◌>>=◌,
  Bool-cases, Option-cases, inl, inr, All, subst, lookup, remove, contains, lookup-remove,
}
use processkit_py.Errors.{PyErr}
use processkit_py.Hub.{HubEntry, CompletionHub, publish, collect_ready, take_ready}
use processkit_py.Hub.System.{wake_callback}
use processkit_py.Runtime.Completion.{
  pending, ready, Joined, bridge_result, complete_all-outcome, store, settle,
}
use processkit_py.Runtime.Bridge.{Machine, Operation, published, resolved, finish, deliver}
use processkit_py.Runtime.Bridge.Hubs.{Differs, At, publish-own-At}
use processkit_py.Runtime.Bridge.InFlight.{Flying}

-- What a batch hands over of a published operation, and before it.
collect_ready-split :
    (e : HubEntry) (id : ℕ) (ids : List ℕ) (entries : List (ℕ × HubEntry))
    → contains id ids ≡ true
    → lookup id entries ≡ some e
    → ((k : ℕ) (d : HubEntry) → lookup k entries ≡ some d → k ≢ id → Differs e d)
    → (xs ys : List HubEntry) × ((collect_ready ids entries).0 ≡ xs ++ e ∷ ys) × All (Differs e) xs
unfolding collect_ready contains
collect_ready-split e id [] entries among mine alone = cc
collect_ready-split e id (j ∷ ids) entries among mine alone = elim (Bool-cases (j == id)) [
  | inl own ↦
      let is_own : j ≡ id = ground arith in
      ([], (collect_ready ids (remove j entries)).0, rw (is_own, mine) refl, tt)
  | inr other ↦
      let (xs, ys, split, differ) =
        collect_ready-split e id ids (remove j entries) (ground arith)
          (ground (arith, lookup-remove j id entries))
          (λ k d found apart. ground (arith, alone k d, lookup-remove j k entries)) in
      elim (Option-cases (lookup j entries)) [
        | inl missing ↦ (xs, ys, rw missing split, differ)
        | inr (d, found) ↦
            let not_own : j ≢ id = ground arith in
            (d ∷ xs, ys, rw found (ap (λ l. d ∷ l) split), (alone j d found not_own, differ))
      ]
]

-- A hub that is not the operation's own does not have it, published or not.
At-other :
    (op : Operation) (a b mine : Bool) (hub : CompletionHub)
    → mine ≡ false
    → At op a mine hub
    → At op b mine hub
At-other op a b mine hub other at = record {
  registered = at.registered;
  published = λ h. ground arith;
  still_open = at.still_open;
  alone = at.alone;
}

module _ {A : Type 0} (op : Operation) where
  pub finish-own :
      (write_ok : Bool) (joined : Joined A) (r : Result PyErr A) (m : Machine A)
      → bridge_result joined ≡ some r
      → Flying op false pending m
      → Flying op true (ready r) (finish write_ok op joined m)
  unfolding finish published store
  finish-own write_ok joined r m ends f =
      let own : (op.hub == op.hub) ≡ true = ground arith in
      let before : At op false true (m.hubs op.hub) =
        subst (λ b. At op false b (m.hubs op.hub)) own (f.hubs op.hub) in
      let after : At op true (op.hub == op.hub) (publish write_ok op.id (m.hubs op.hub)).0 =
        rw own (publish-own-At op (m.hubs op.hub) write_ok before) in
      rw ends (record {
        hubs = λ h. elim (Bool-cases (op.hub == h)) [
          | inl same ↦
              let moved : op.hub ≡ h = ground arith in
              rw same (
                subst (λ j. At op true (j == op.hub) (publish write_ok op.id (m.hubs op.hub)).0)
                  moved after)
          | inr other ↦
              rw other (At-other op false true (h == op.hub) (m.hubs h) (ground arith) (f.hubs h))
        ];
        made = f.made;
        waits = f.waits;
        holds = ground arith;
      })

  pub deliver-own :
      (convert : A → Result PyErr ℕ) (r : Result PyErr A) (m : Machine A)
      → Flying op true (ready r) m
      → (deliver convert op.hub m).world.futures op.entry.future ≡ settle (r >>= convert)
  unfolding deliver resolved wake_callback take_ready
  deliver-own convert r m f =
      let own : (op.hub == op.hub) ≡ true = ground arith in
      let at = f.hubs op.hub in
      let (xs, ys, split, differ) =
        collect_ready-split op.entry op.id (m.hubs op.hub).ready (m.hubs op.hub).entries
          (at.published own) (at.registered own)
          (λ k d found apart. at.alone k d found (inr apart)) in
      rw split (complete_all-outcome convert xs ys op.entry m.world r differ f.waits f.holds)
