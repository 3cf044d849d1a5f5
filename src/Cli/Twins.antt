-- ===== src/Cli/Twins.antt =====
-- src/cli.rs, lines 406 to 435 and 504 to 620: the verbs that a client awaits, and `run_json`. The
-- asynchronous verb builds its command in the task that runs it, whose thread and sinks are others.
mod Tests
use processkit_py.Common.{
  ℕ, ◌≡◌, ◌∙◌, ap, refl, Bool, true, false, List, [], Result, ok, err, ◌>>=◌, map_ok, arith, Text,
  Option-cases, Result-cases, inl, inr,
}
use processkit_py.Errors.{PyErr}
use processkit_py.Cli.{Resolvers, Slot, build_command, client_verb}
use processkit_py.Cli.Reentrancy.{
  first_failure, values, build_command-reentrant, client_verb-fail_closed,
}
use processkit_py.Runner.{Sinks}
use processkit_py.Runner.Capture.{
  Future, ends, first_error, with_when_capture, with_when_capture-raises_first,
}
use processkit_py.Runtime.Completion.{completed, bridge_result, settle}
use processkit_py.Runtime.Bridge.{Machine, Request, Operation, start_bridge, finish, deliver}
use processkit_py.Runtime.Bridge.Settled.{Fresh, Meanwhile, start_bridge-settles}
use processkit_py.Runtime.Drive.{CompletionConverter, convert_completion, drive_async_py_convert}

module _ {K W : Type 0} where
  module _ {A : Type 0} where
    -- The future that the scope polls, after the build.
    awaited :
        (K → W → W × Future × Result PyErr A) → Result PyErr K → W → W × Future × Result PyErr A
    awaited run (err e) w = (w, ends, err e)
    awaited run (ok command) w = run command w

    unfoldable pub client_averb :
        (List Text → K)
        → (K → W → W × Future × Result PyErr A)
        → Resolvers
        → Slot
        → Sinks
        → W
        → Slot × W × Sinks × Result PyErr A
    unfolding build_command awaited with_when_capture
    client_averb apply run resolvers slot sinks w =
        let (slot', command) = build_command apply resolvers slot in
        let r = awaited run command w in
        let (sinks', result) = with_when_capture r.1 r.2 sinks in (slot', r.0, sinks', result)

    -- A verb and its twin, on threads and with sinks of their own, change the world alike and give the
    -- same result, and each leaves its slot and its sinks alone.
    pub client_averb-twin :
        (apply : List Text → K) (run : K → W → W × Future × Result PyErr A) (rs : Resolvers)
        (slot slot' : Slot) (sinks sinks' : Sinks) (w : W)
        → let v = client_verb apply run rs slot sinks w in
          client_averb apply run rs slot' sinks' w ≡ (slot', v.1, sinks', v.3)
    unfolding client_averb awaited with_when_capture
    client_averb-twin apply run rs slot slot' sinks sinks' w =
        elim (Option-cases (first_failure rs)) [
          | inl absent ↦
              let r = run (apply (values rs)) w in
              ground (
                arith,
                build_command-reentrant apply rs slot',
                client_verb-fail_closed apply run rs slot sinks w,
                absent,
                with_when_capture-raises_first r.1 r.2 sinks',
              )
          | inr (e, failed) ↦ ground (
            arith,
            build_command-reentrant apply rs slot',
            client_verb-fail_closed apply run rs slot sinks w,
            failed,
            with_when_capture-raises_first {A = A} ends (err e) sinks',
          )
        ]

  -- `client.run` with the name of the program; its future ends with both.
  with_program :
      (K → Text)
      → (K → W → W × Future × Result PyErr Text)
      → K
      → W
      → W × Future × Result PyErr (Text × Text)
  with_program program run command w =
      let r = run command w in (r.0, r.1, map_ok (λ text. (program command, text)) r.2)

  -- `parse` is `parse_json`, with what it raises.
  run_parsed :
      (K → Text)
      → (K → W → W × Future × Result PyErr Text)
      → (Text → Text → Result PyErr ℕ)
      → Result PyErr K
      → Sinks
      → W
      → W × Sinks × Result PyErr ℕ
  unfolding with_when_capture
  run_parsed program run parse (err e) sinks w = (w, sinks, err e)
  run_parsed program run parse (ok command) sinks w =
      let r = run command w in
      let (sinks', text) = with_when_capture r.1 r.2 sinks in
      (r.0, sinks', text >>= parse (program command))

  unfoldable pub run_json :
      (List Text → K)
      → (K → Text)
      → (K → W → W × Future × Result PyErr Text)
      → (Text → Text → Result PyErr ℕ)
      → Resolvers
      → Slot
      → Sinks
      → W
      → Slot × W × Sinks × Result PyErr ℕ
  unfolding build_command run_parsed
  run_json apply program run parse resolvers slot sinks w =
      let (slot', command) = build_command apply resolvers slot in
      let (w', sinks', result) = run_parsed program run parse command sinks w in
      (slot', w', sinks', result)

  -- The work of the awaitable, whose task has no sinks around it, and the world after it.
  unfoldable pub arun_json :
      (List Text → K)
      → (K → Text)
      → (K → W → W × Future × Result PyErr Text)
      → (Text → Text → Result PyErr ℕ)
      → Resolvers
      → Slot
      → W
      → W × Result PyErr CompletionConverter
  unfolding client_averb with_program drive_async_py_convert
  arun_json apply program run parse resolvers slot w =
      let (slot', w', sinks', text) =
        client_averb apply (with_program program run) resolvers slot [] w in
      (w', drive_async_py_convert (λ p. parse p.0 p.1) text)

  arun_json-twin :
      (apply : List Text → K) (program : K → Text) (run : K → W → W × Future × Result PyErr Text)
      (parse : Text → Text → Result PyErr ℕ) (rs : Resolvers) (slot slot' : Slot) (sinks : Sinks)
      (w : W)
      → let v = run_json apply program run parse rs slot sinks w in
        ((arun_json apply program run parse rs slot' w).0 ≡ v.1)
        × (((arun_json apply program run parse rs slot' w).1 >>= convert_completion) ≡ v.3)
  unfolding run_json run_parsed arun_json client_averb awaited with_program drive_async_py_convert
  arun_json-twin apply program run parse rs slot slot' sinks w =
      elim (Option-cases (first_failure rs)) [
        | inl absent ↦
            let k = apply (values rs) in
            let r = run k w in
            let here = with_when_capture-raises_first r.1 r.2 sinks in
            let there =
              with_when_capture-raises_first {A = Text × Text} r.1
                (map_ok (λ text. (program k, text)) r.2) [] in
            elim (Option-cases (first_error r.1)) [
              | inl calm ↦ elim (Result-cases r.2) [
                | inl (e, raised_e) ↦ ground (
                  arith,
                  build_command-reentrant apply rs slot,
                  build_command-reentrant apply rs slot',
                  absent,
                  calm,
                  raised_e,
                  here,
                  there,
                )
                | inr (t, gives) ↦ ground (
                  arith,
                  build_command-reentrant apply rs slot,
                  build_command-reentrant apply rs slot',
                  absent,
                  calm,
                  gives,
                  here,
                  there,
                )
              ]
              | inr (e, failed) ↦ ground (
                arith,
                build_command-reentrant apply rs slot,
                build_command-reentrant apply rs slot',
                absent,
                failed,
                here,
                there,
              )
            ]
        | inr (e, failed) ↦ ground (
          arith,
          build_command-reentrant apply rs slot,
          build_command-reentrant apply rs slot',
          failed,
          with_when_capture-raises_first {A = Text × Text} ends (err e) [],
        )
      ]

  -- An awaited `arun_json` settles its Future as `run_json` returns or raises: if its work is started
  -- with a Future and a cell that are new, then whatever other operations begin, end and are delivered
  -- meanwhile, once its task has ended, the next delivery of its hub gives the Future the result that
  -- `run_json` has with the same resolvers, run and parser in the same world, or fails it with the same
  -- exception; and the task leaves that world as `run_json` does. The slot of the thread and the sinks
  -- of the caller make no difference.
  pub arun_json-settles :
      (apply : List Text → K) (program : K → Text) (run : K → W → W × Future × Result PyErr Text)
      (parse : Text → Text → Result PyErr ℕ) (rs : Resolvers) (slot slot' : Slot) (sinks : Sinks)
      (w : W) (r : Request) (f : ℕ) (m : Machine CompletionConverter) (op : Operation)
      (n n' : Machine CompletionConverter) (write_ok : Bool)
      → r.future ≡ ok f
      → Fresh f r.cell m
      → (start_bridge r m).1 ≡ ok op
      → Meanwhile op false (start_bridge r m).0 n
      → Meanwhile op true
          (finish write_ok op (completed (arun_json apply program run parse rs slot' w).1) n)
          n'
      → ((deliver convert_completion op.hub n').world.futures f
          ≡ settle (run_json apply program run parse rs slot sinks w).3)
        × ((arun_json apply program run parse rs slot' w).0
            ≡ (run_json apply program run parse rs slot sinks w).1)
  unfolding bridge_result
  arun_json-settles apply program run parse rs slot slot' sinks w r f m op n n' write_ok made fresh
        started before after =
      let (same_world, same_result) =
        arun_json-twin apply program run parse rs slot slot' sinks w in
      let result = (arun_json apply program run parse rs slot' w).1 in
      (
        start_bridge-settles r f m op n n' write_ok (completed result) result convert_completion
              made fresh started before refl after
            ∙ ap settle same_result,
        same_world,
      )
