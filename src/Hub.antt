-- ===== src/Hub.antt =====
-- src/runtime.rs, lines 283 to 417: `CompletionHub`, one dispatcher per asyncio loop. A method takes
-- the hub that its lock guards and returns the new one. A lock section is one function, so a method
-- that takes two locks in turn is two functions: `publish` is `publish_enqueue` and then `wake`.
pub mod System
pub mod Delivery
use processkit_py.Common.{
  ℕ, ◌+◌, ◌%◌, ◌^◌, Bool, true, false, not, ◌||◌, Option, none, some, List, [], ◌∷◌, ◌++◌,
  if◌then◌else◌, lookup, remove, insert, contains_key,
}

-- The asyncio Future and the completion cell that belong to one operation, by identity.
pub record HubEntry : Type 0 where
  pub future : ℕ
  pub completion : ℕ

pub record HubState : Type 0 where
  pub entries : List (ℕ × HubEntry)
  pub ready : List ℕ
  pub wake_outstanding : Bool
  pub closed : Bool

-- `writer` says whether the hub still holds the write end of the wake socket.
pub record CompletionHub : Type 0 where
  pub next_id : ℕ
  pub state : HubState
  pub open state use *
  pub writer : Bool

abbrev pub is_empty {ℓ} : {A : Type ℓ} → List A → Bool
is_empty [] = true
is_empty (x ∷ xs) = false

-- The hub that `create_completion_hub` builds.
abbrev pub new_hub : CompletionHub
new_hub = record {
  next_id = 1;
  state = record { entries = []; ready = []; wake_outstanding = false; closed = false };
  writer = true;
}

-- `fetch_add` on an `AtomicU64` wraps around.
abbrev pub next_u64 : ℕ → ℕ
next_u64 n = (n + 1) % 2 ^ 64

-- `none` is the refusal of a closed hub; the identifier is spent all the same.
unfoldable pub register : HubEntry → CompletionHub → CompletionHub × Option ℕ
register e h =
    let spent : CompletionHub = record h { next_id = next_u64 h.next_id } in
    if h.closed then (spent, none) else (
      record spent { state = record h.state { entries = insert h.next_id e h.entries } },
      some h.next_id,
    )

unfoldable pub cancel : ℕ → CompletionHub → CompletionHub
cancel id h = record h { state = record h.state { entries = remove id h.entries } }

-- The write of the wake byte; `write_ok` is what `write_all` answers. A failed write drops the
-- writer. The number is how many bytes have entered the socket.
unfoldable pub wake : Bool → CompletionHub → CompletionHub × ℕ
wake write_ok h =
    if not h.writer then (h, 0) else if write_ok then (h, 1) else (record h { writer = false }, 0)

-- The lock section of `publish`; the Boolean is `should_wake`.
unfoldable pub publish_enqueue : ℕ → CompletionHub → CompletionHub × Bool
publish_enqueue id h =
    if h.closed || not (contains_key id h.entries)
    then (h, false)
    else if h.wake_outstanding
    then (record h { state = record h.state { ready = h.ready ++ id ∷ [] } }, false)
    else (
      record h { state = record h.state { ready = h.ready ++ id ∷ []; wake_outstanding = true } },
      true,
    )

unfoldable pub publish : Bool → ℕ → CompletionHub → CompletionHub × ℕ
unfolding publish_enqueue wake
publish write_ok id h =
    let (h', should_wake) = publish_enqueue id h in
    if should_wake then wake write_ok h' else (h', 0)

-- The lock section of `wake_if_idle`.
unfoldable pub idle_flag : CompletionHub → CompletionHub × Bool
idle_flag h =
    if h.closed || not (is_empty h.entries) || h.wake_outstanding
    then (h, false)
    else (record h { state = record h.state { wake_outstanding = true } }, true)

unfoldable pub wake_if_idle : Bool → CompletionHub → CompletionHub × ℕ
unfolding idle_flag wake
wake_if_idle write_ok h =
    let (h', should_wake) = idle_flag h in if should_wake then wake write_ok h' else (h', 0)

-- One round of the `filter_map`: a missing entry is skipped.
abbrev push_taken :
    Option HubEntry → List HubEntry × List (ℕ × HubEntry) → List HubEntry × List (ℕ × HubEntry)
push_taken none r = r
push_taken (some e) (taken, rest) = (e ∷ taken, rest)

-- `ids.into_iter().filter_map(|id| state.entries.remove(&id))`
unfoldable pub collect_ready : List ℕ → List (ℕ × HubEntry) → List HubEntry × List (ℕ × HubEntry)
collect_ready [] entries = ([], entries)
collect_ready (id ∷ ids) entries =
    push_taken (lookup id entries) (collect_ready ids (remove id entries))

unfoldable pub take_ready : CompletionHub → CompletionHub × List HubEntry
unfolding collect_ready
take_ready h =
    let (taken, rest) = collect_ready h.ready h.entries in
    (
      record h { state = record h.state { entries = rest; ready = []; wake_outstanding = false } },
      taken,
    )

abbrev pub values {ℓ} : {V : Type ℓ} → List (ℕ × V) → List V
values [] = []
values ((k, v) ∷ m) = v ∷ values m

-- The order in which a `HashMap` is drained is not specified; the model gives that of the list.
unfoldable pub close : CompletionHub → CompletionHub × List HubEntry
close h = (
  record h {
    state = record { entries = []; ready = []; wake_outstanding = false; closed = true };
    writer = false;
  },
  values h.entries,
)

unfoldable pub is_closed : CompletionHub → Bool
is_closed h = h.closed

unfoldable pub has_entries : CompletionHub → Bool
has_entries h = not (is_empty h.entries)
