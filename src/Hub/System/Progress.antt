-- ===== src/Hub/System/Progress.antt =====
-- src/runtime.rs: the delivery of a published operation.
use processkit_py.Common.{
  ℕ, ◌≤◌, ◌≡◌, ◌≢◌, refl, Bool, true, false, not, ◌||◌, some, none, [], arith, ltb, length, ap,
  lookup, contains,
}
use processkit_py.Hub.{HubEntry, CompletionHub, take_ready}
use processkit_py.Hub.Delivery.{Has, Has-append, collect_ready-Has, lookup-collect_ready}
use processkit_py.Hub.System.{Loop, Sys, run, Reach}
use processkit_py.Hub.System.Tokens.{Reach-Inv}
use processkit_py.Hub.System.Schedule.{pump, after_cancel, settle, after_cancel-HandsOver}

length-settle-le : (b : Bool) (l : Loop) (c : Bool) → length (after_cancel b (pump l c)) ≤ 5
length-settle-le b l c = ground arith

not-nil-of-lookup :
    (id : ℕ) (s : Sys) {op : HubEntry} → lookup id s.entries ≡ some op → s.entries ≢ []
unfolding lookup
not-nil-of-lookup id s h e = ground arith

not-nil-of-contains : (id : ℕ) (s : Sys) → contains id s.ready ≡ true → s.ready ≢ []
unfolding contains
not-nil-of-contains id s h e = ground arith

-- From every state that any interleaving can reach in which the hub is open, an operation that is
-- published and still registered is handed over by the schedule `settle`, of at most five events:
-- the schedule runs, and ends with nothing ready, the operation's identifier no longer registered
-- and its entry among those completed.
pub settle_delivers :
    {e : HubEntry} {s : Sys} (id : ℕ) (op : HubEntry)
    → Reach e s
    → s.closed ≡ false
    → contains id s.ready ≡ true
    → lookup id s.entries ≡ some op
    → (length (settle s) ≤ 5)
      × (t : Sys) × (run (settle s) s ≡ some t)
      × (t.ready ≡ [])
      × (lookup id t.entries ≡ none)
      × Has op t.completed
unfolding take_ready
settle_delivers {s = s} id op r open_hub published registered =
    let (t, runs, hub, log) =
      after_cancel-HandsOver s.cancelling s (Reach-Inv r) open_hub
        (not-nil-of-contains id s published) (not-nil-of-lookup id s registered) refl in
    (
      length-settle-le s.cancelling s.loop (ltb 0 s.pipe || not s.writer),
      t,
      runs,
      ap (λ (h : CompletionHub). h.ready) hub,
      rw hub (rw lookup-collect_ready (rw published)),
      rw log (
          Has-append s.completed _ op
            (collect_ready-Has s.ready s.entries id op published registered)),
    )
