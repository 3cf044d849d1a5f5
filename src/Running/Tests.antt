-- ===== src/Running/Tests.antt =====
-- src/running.rs: a handle whose child exits while its events are pulled, and a prompt in its output.
use processkit_py.Durations.{F64, finite}
use processkit_py.Running.Openers.{text, matches}
use processkit_py.Running.Verbs.{Caller, sync}
use processkit_py.Running.WaitFor.{Stream, wait_for_output, enough_rounds, wait_for_output-contains}
use processkit_py.Common.{
  Text, ℕ, ◌+◌, ◌≤◌, ◌<◌, ◌≡◌, ◌≢◌, ◌++◌, refl, inl, true, false, Option, none, some, List, [], ◌∷◌,
  arith, length, ok, codes, ◌==◌, if◌then◌else◌,
}
use processkit_py.Running.{
  Handle, not_started, process, IsValid, take_joint, take_process, take, started,
}
use processkit_py.Running.Claim.{
  at_joint, returned, Race, begins, claims, other_process, fire, boot, Reach, start, next,
}
use processkit_py.Running.Claim.Safety.{
  holds, published, claims_made, claim_exclusive, claim-misses_nothing,
}
use processkit_py.Running.Events.{
  Turn, arrives, terminal, ends, timer, Drive, next_event, pull_all, events,
}
use processkit_py.Running.Events.Order.{Due, is_gone, pull_all-events}
use processkit_py.Running.Events.Handover.{whereabouts, Reaped, next_event-whereabouts}
use processkit_py.Running.Tail.{
  World, not_ready, look, snapshot_tail, probe_partial_tail, clamp_timeout, probe, test_look,
  test_tail,
}
use processkit_py.Running.Tail.Verdict.{Verdict, probe_partial_tail-first}
use processkit_py.Running.Idle.{yields, anext, Wait}

-- The process, by its identity.
abbrev child : ℕ
child = 7

-- The finisher has emptied the process slot and has not published its task.
abbrev in_transit : Race ℕ
in_transit = record {
  handle = record { inner = none; finish = not_started };
  in_hand = some child;
  claimer = at_joint;
  others = [];
}

in_transit-Reach : Reach child in_transit
unfolding fire boot started take
in_transit-Reach = next begins start refl

claim_exclusive_example :
    (claims_made in_transit ≤ 1)
    × (claims_made in_transit ≡ 0
        → holds in_transit.inner + holds in_transit.in_hand + published in_transit.finish ≡ 1)
claim_exclusive_example = claim_exclusive in_transit-Reach

-- Another thread has claimed the process before the claimer looked for it.
abbrev overtaken : Race ℕ
overtaken = record {
  handle = record { inner = none; finish = not_started };
  in_hand = none;
  claimer = returned none;
  others = process child ∷ [];
}

overtaken-Reach : Reach child overtaken
unfolding fire boot started take take_joint take_process
overtaken-Reach =
    next claims (next claims (next other_process (next claims start refl) refl) refl) refl

claim-misses_nothing_example : length overtaken.others ≡ 1
claim-misses_nothing_example = claim-misses_nothing overtaken-Reach refl

abbrev live : Handle ℕ
live = record { inner = some child; finish = not_started }

abbrev driven : Drive ℕ
driven = record { handle = live; reap_started = false; probe_after = 0 }

-- Two lines of output and the exit, with probes between them: the child is alive, and then it has exited.
abbrev output : List (Turn ℕ)
output = timer false ∷ arrives 1 ∷ timer true ∷ arrives 2 ∷ terminal 3 ∷ ends ∷ []

enough : length output < 7
enough = omega arith

abbrev only_second : ℕ → Option ℕ
only_second n = if n == 2 then some n else none

live-IsValid : IsValid live
live-IsValid = record { emptied = inl refl }

driven-Reaped : Reaped driven
driven-Reaped e = cc

output-Due : Due (is_gone driven) output
output-Due = (refl, tt)

pull_all-events_example : pull_all 7 output driven ≡ events output
pull_all-events_example =
    pull_all-events 7 output driven live-IsValid driven-Reaped output-Due enough

-- Without a timer that fires after the exit, the run is not reaped, and its terminal event not there.
exit_not_seen : pull_all {E = ℕ} 3 (timer false ∷ terminal 3 ∷ []) driven ≡ []
unfolding pull_all next_event
exit_not_seen = refl

next_event-whereabouts_example :
    (whereabouts (next_event output driven).1.handle ≡ whereabouts driven.handle)
    × IsValid (next_event output driven).1.handle
    × Reaped (next_event output driven).1
next_event-whereabouts_example = next_event-whereabouts output driven live-IsValid driven-Reaped

abbrev quiet : List (Turn ℕ)
quiet = timer false ∷ timer false ∷ arrives 1 ∷ []

-- A prompt that is there in the first round, and that the matcher accepts.
abbrev prompt : World
prompt = record {
  present = λ i. true;
  seen = λ i. some (codes "login: ");
  polled = λ i. not_ready;
  matches = λ i tail. ok true;
  took = λ i. 1;
  late = λ i. 0;
}

-- The same, without the matcher.
abbrev dialog : Stream
dialog = record {
  present = λ i. true;
  seen = λ i. some (codes "login: ");
  polled = λ i. not_ready;
  attached = λ i. true;
  took = λ i. 1;
  late = λ i. 0;
}

abbrev main_thread : Caller
main_thread = record { pid = 41; owner = 41; inside = false; event_loop = false }

-- 1.5 seconds
abbrev soon : F64
soon = finite false 3 1073

login_found :
    wait_for_output sync main_thread dialog (text (codes "log")) soon 0 4
    ≡ some (ok (codes "login: "))
unfolding wait_for_output probe matches
login_found = refl

wait_for_output-contains_example :
    (wait_for_output sync main_thread dialog (text (codes "log")) soon 0 enough_rounds ≢ none)
    × ((needle t : Text)
        → wait_for_output sync main_thread dialog (text needle) soon 0 enough_rounds ≡ some (ok t)
        → (before after : Text) × (t ≡ before ++ needle ++ after))
wait_for_output-contains_example =
    wait_for_output-contains sync main_thread dialog (text (codes "log")) soon 0 enough_rounds
      (omega arith)

prompt_found : probe_partial_tail prompt 100000000 0 4 ≡ some (ok (codes "login: "))
unfolding probe_partial_tail probe look snapshot_tail test_look test_tail
prompt_found = refl

probe_partial_tail-first_example :
    Verdict prompt (0 + clamp_timeout 100000000) 0 0 (ok (codes "login: "))
probe_partial_tail-first_example =
    probe_partial_tail-first prompt 100000000 0 4 (ok (codes "login: ")) prompt_found

abbrev chatter : List (Wait ℕ)
chatter = yields 1 ∷ yields 3 ∷ []

passed_over : anext (some child) only_second true (chatter ++ yields 2 ∷ []) ≡ some (false, ok 2)
unfolding anext
passed_over = refl
