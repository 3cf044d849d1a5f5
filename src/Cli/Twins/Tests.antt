-- ===== src/Cli/Twins/Tests.antt =====
-- src/cli.rs: `arun_json` of a client whose resolver builds a command of its own, next to another
-- operation of the loop.
use processkit_py.Common.{
  ℕ, suc, ◌≡◌, refl, true, false, none, some, List, [], ◌∷◌, Result, ok, arith, Text, codes, lookup,
  contains, length,
}
use processkit_py.Errors.{PyErr, raised}
use processkit_py.Hub.{new_hub, register}
use processkit_py.Cli.{fails, resolves, Resolvers, finished, resolver, no_builds, build}
use processkit_py.Cli.Twins.{run_json, arun_json, arun_json-settles}
use processkit_py.Runner.Capture.{Future, asks}
use processkit_py.Supervision.{answers}
use processkit_py.Runtime.Completion.{waiting, pending, completed, settle}
use processkit_py.Runtime.Bridge.{Machine, Request, Operation, start_bridge, finish, deliver}
use processkit_py.Runtime.Bridge.Settled.{Fresh, Meanwhile, nothing, begins}
use processkit_py.Runtime.Drive.{CompletionConverter, convert_completion}

abbrev idle_machine : Machine CompletionConverter
idle_machine = record {
  anchors = λ l. none;
  hubs = λ h. new_hub;
  made = 0;
  world = record { futures = λ f. waiting; cells = λ c. pending };
}

abbrev request : ℕ → ℕ → Request
request f c = record {
  locals = ok 5;
  future = ok f;
  cell = c;
  create_error = none;
  callback_error = none;
}

idle_machine-Fresh : Fresh 1 11 idle_machine
unfolding contains lookup
idle_machine-Fresh = record {
  anchored = λ l h anchor. ground arith;
  unready = λ h. refl;
  unshared = λ h k d found. ground arith;
}

abbrev operation : Operation
operation = record { hub = 0; id = 1; entry = record { future = 1; completion = 11 } }

operation_started : (start_bridge (request 1 11) idle_machine).1 ≡ ok operation
unfolding start_bridge register
operation_started = refl

abbrev careless : Resolvers
careless =
    resolver (build (resolver no_builds (λ errors. fails (raised 1)) finished) no_builds)
      (λ errors. resolves (codes "token")) finished

abbrev apply : List Text → List Text
apply texts = texts

abbrev program : List Text → Text
program command = codes "tool"

-- A world counts the runs.
abbrev run : List Text → ℕ → ℕ × Future × Result PyErr Text
run command n = (suc n, asks (answers true) Future.ends, ok (codes "[1, 2]"))

-- A value is the length of its text.
abbrev parse : Text → Text → Result PyErr ℕ
parse name text = ok (length text)

abbrev both_started : Machine CompletionConverter
both_started = (start_bridge (request 2 12) (start_bridge (request 1 11) idle_machine).0).0

other_begins : Meanwhile operation false (start_bridge (request 1 11) idle_machine).0 both_started
unfolding start_bridge register
other_begins = begins (request 2 12) nothing (λ f same. ground arith, ground arith) (ground arith)

arun_json-settles_example :
    ((deliver convert_completion 0 (
          finish true operation
            (completed (arun_json apply program run parse careless none 0).1)
            both_started)).world.futures
        1
      ≡ settle (run_json apply program run parse careless (some (raised 7)) (none ∷ []) 0).3)
    × ((arun_json apply program run parse careless none 0).0
        ≡ (run_json apply program run parse careless (some (raised 7)) (none ∷ []) 0).1)
arun_json-settles_example =
    arun_json-settles apply program run parse careless (some (raised 7)) none (none ∷ []) 0
      (request 1 11) 1 idle_machine operation both_started
      (finish true operation (completed (arun_json apply program run parse careless none 0).1)
        both_started)
      true refl idle_machine-Fresh operation_started other_begins nothing

run_json_gives :
    (run_json apply program run parse careless (some (raised 7)) (none ∷ []) 0).3 ≡ ok 6
unfolding run_json
run_json_gives = refl
