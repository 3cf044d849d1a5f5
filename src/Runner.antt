-- ===== src/Runner.antt =====
-- src/runner.rs, lines 60 to 172 and 460 to 590: the sinks in which the errors of Python callbacks wait
-- for the verb that drives them. A task has a stack of sinks, the innermost first, one for each verb
-- that it is in.
pub mod Capture
pub mod Tasks
pub mod Doubles
pub mod Verbs
pub mod Replies
mod Tests
use processkit_py.Common.{Bool, true, false, Option, none, some, List, [], ◌∷◌, Text, codes}
use processkit_py.Errors.{PyErr}
use processkit_py.Supervision.{Answer, detached, unbuilt, raises, answers}

abbrev pub Sinks : Type 0
Sinks = List (Option PyErr)

unfoldable pub stash_when_error : PyErr → Sinks → Sinks × Option PyErr
stash_when_error e [] = ([], some e)
stash_when_error e (none ∷ outer) = (some e ∷ outer, none)
stash_when_error e (some first ∷ outer) = (some first ∷ outer, none)

-- The sinks, what the unraisable hook is given, and the answer.
abbrev pub Hooked : Type 0 → Type 0
Hooked A = Sinks × Option PyErr × A

propagated : Sinks × Option PyErr → Hooked Bool
propagated (sinks, none) = (sinks, none, true)
propagated (sinks, some e) = (sinks, some e, false)

unfoldable pub propagate_when_error : PyErr → Sinks → Hooked Bool
unfolding stash_when_error propagated
propagate_when_error e sinks = propagated (stash_when_error e sinks)

-- The closure of `make_command_predicate`.
unfoldable pub command_predicate : Answer → Sinks → Hooked Bool
unfolding propagate_when_error
command_predicate detached sinks = (sinks, none, false)
command_predicate (unbuilt e) sinks = propagate_when_error e sinks
command_predicate (raises e) sinks = propagate_when_error e sinks
command_predicate (answers b) sinks = (sinks, none, b)

pub data CassetteField : Type 0 where
  argument cwd stdout stderr other : CassetteField

unfoldable pub field_name : CassetteField → Text
field_name argument = codes "argument"
field_name cwd = codes "cwd"
field_name stdout = codes "stdout"
field_name stderr = codes "stderr"
field_name other = codes "unknown"

-- What becomes of a call of a scrubber: the interpreter is finalizing; it raises, or returns no
-- text; it gives a replacement.
pub data Scrub : Type 0 where
  finalizing : Scrub
  fails : PyErr → Scrub
  replaces : Text → Scrub

abbrev pub failed_replacement : Text
failed_replacement = codes "<processkit-scrub-error>"

scrub_failed : Sinks × Option PyErr → Hooked Text
scrub_failed (sinks, carry) = (sinks, carry, failed_replacement)

unfoldable pub scrubbed : Scrub → Sinks → Hooked Text
unfolding stash_when_error scrub_failed
scrubbed finalizing sinks = (sinks, none, failed_replacement)
scrubbed (fails e) sinks = scrub_failed (stash_when_error e sinks)
scrubbed (replaces text) sinks = (sinks, none, text)

-- The closure of `make_cassette_scrubber`.
unfoldable pub cassette_scrubber :
    (Text → Text → Scrub) → CassetteField → Text → Sinks → Hooked Text
unfolding field_name scrubbed
cassette_scrubber callback field text sinks = scrubbed (callback (field_name field) text) sinks
