-- ===== src/Lib.antt =====
-- A verification library for processkit-py, the Python extension module over the Rust crate
-- processkit. It is about the extension's own Rust code, in the repository's src/.
--
-- The program. Python code calls blocking verbs, which drive a Rust future on the calling thread, and
-- awaitable ones, which start their work lazily and hand its outcome to the asyncio loop through one
-- completion hub per loop. A running process is shared by a handle and by the streams that the handle
-- gives out, through two slots with a lock each; an event stream may start the finisher of the run on
-- the handle's behalf. Output is copied to Python writers by a sink on the blocking pool. Batches,
-- supervisors and process groups are built on these.
--
-- The parts, and the files that model them.
--   Common, with children: Boolean tests, lists over the native numbers, results with a bind, ASCII
--     text, association lists.
--   Errors: the exception classes; Mapping: `map_err_ref`; Classes: the types that `register` adds to
--     the module, and Declared, which compares them with the stub file; Synthesized: the exceptions that
--     the extension makes itself; Json: `truncate_chars` and the parse of a run's output (src/errors.rs,
--     and `parse_json` of src/cli.rs).
--   Hub: `CompletionHub` (src/runtime.rs), a function for each lock section. Hub/Delivery is about
--     `take_ready`. Hub/System is the system of the loop's callbacks and any number of workers: an
--     event is a lock section or a callback, `fire` runs one, `Reach` is any interleaving from the
--     creation of the hub and `run` a given one. Tokens, Idle, Progress and Once are about it;
--     Schedule is the schedule that Progress runs, Calls relates the methods to the events.
--   Runtime: the fork guard, the guards of the call's context, `block_on_interruptible`; Completion:
--     `complete_entry` and what a bridge stores; Lazy: `PyLazyFuture.__await__`; Work: the polling of
--     `CancellableWork`; Bridge: `completion_hub`, `start_bridge` and the delivery to its Future, on the
--     hubs of many loops, with Hubs for one hub, InFlight, Outcome and Settled for an operation among
--     others, and Refused for a call that raises; Drive: `drive_async` and its siblings, which give
--     the bridge its work and the converter of its outcome (src/runtime.rs).
--   Running: the two slots and the claims of `PyRunningProcess` (src/running.rs); Claim: the race
--     of a claim with `start_joint_finish` and other threads; Events: `EventsDrive` and its exit
--     probe; Tail: `probe_partial_tail`; Verbs: the consuming verbs, the context managers' exits and
--     the drop; Idle: the idle timeout of the iterators, and Iterators: the four of them; Getters:
--     what the handle shows; JsonLines: the iterator over JSON lines; Stdin: the writer to standard
--     input, `resize_pty` and `kill`; Openers: the verbs that open a stream, and the matcher of a
--     tail; WaitFor: the verbs that wait for output.
--   Sink: `call_py_write`, `call_py_flush`; Sink/Poll: the `AsyncWrite` of `PyWriterSink`
--     (src/convert.rs).
--   Batch: the order of a batch's results (src/batch.rs).
--   Presets: the parsers of named presets, I/O priorities and signals (src/convert.rs and
--     src/supervisor.rs).
--   Durations, Encodings: seconds in binary64 as durations, the retry policy, and the labels of
--     encodings (src/convert.rs).
--   Crate: the builders of the crate's `Command`, as an interface that Command and its children take.
--   Command: `PyCommand` with the bits of its terminal conflicts (src/command.rs). Settings are the
--     builder methods that only configure, Tees the sinks of a tee, Methods any of the methods and a
--     chain of them; Plan and Pty: what a chain leaves, by its last calls; History: the same for single
--     settings; Verbs: `start`, `spawn_detached` and the repr; Pipeline: the builders of
--     `Pipeline`; Passed: the verbs that pass the crate's result on.
--   Results: outcomes and events; Pickle and Unpickle: their reduction and their reconstruction;
--     Hashing: `__eq__` and `__hash__`; Wrappers: the results of runs, and their diagnostics, for which
--     Lossy decodes bytes (src/result.rs).
--   Runner: the cells of callback errors, the predicates and the scrubbers; Capture: the verbs that
--     open a scope for them; Tasks: tasks that run at the same time; Doubles: the scripted and
--     recording runners; Verbs: the run verbs and their twins; Replies: replies, invocations and
--     cassettes (src/runner.rs).
--   Cli: the resolvers of a client's environment, their error scope, and `build_command`; Reentrancy:
--     resolvers that use a client; Client: the constructor and its checks; Twins: the awaited verbs, and
--     `run_json` (src/cli.rs).
--   Supervision: the callbacks of a supervisor, the cells of their errors, the sessions, in Setup the
--     constructor, in Ends the calls that end a supervision, and in Outcome what it reports
--     (src/supervisor.rs, and `WhenCaptureRunner` of src/runner.rs).
--   Group: the slot of `ProcessGroup`, Methods: its methods, and Reports: the records that it gives
--     (src/group.rs, and src/introspection.rs).
--   Logging: the bridge of the crate's events to Python's logging, and Rendered: what it logs
--     (src/logging.rs).
--
-- How the code is read. A method takes the state that its lock guards and gives the new one; a
-- fallible function gives a `Result`, in which an exception is its class. Python objects, processes
-- and Futures are identities or type parameters. What Python, the operating system and the processkit
-- crate do is a parameter, an event, or a list of what the world deals to a loop.
--
-- Bounds and fuel. Identifiers of the hub wrap around at 64 bits. The write loop has one round for
-- each unit of its buffer, since a round without progress is an error. The polls of the sink turn at
-- most three times. The tail probe has the clamped timeout divided by its interval, and two rounds
-- more: each sleep lasts the interval at least, or reaches the deadline. `pull_all` and `next_line`
-- take more rounds than the world has turns. Counts are checked against `i64` and `usize` as the
-- code does, the latter with its maximum as a parameter. A count of lines in a `usize` wraps around.
-- A binary64 number is its sign, its mantissa and its exponent, so that a duration is computed
-- exactly, and rounded as the code rounds it.
-- In the hub's system the flag `abandoned` is the model's own: it records that an `add_done_callback`
-- has failed. The terminal event of a run is there only once its process has left the slot. A signal
-- that ends a blocking call on a supervision is a field of the call's `Ending`.
--
-- Not modelled. The cancellation token, the fields of a host's containment and module
-- initialisation, which pass calls on. The getters of results and reports, and the printing of the
-- crate's values. Of the command builder the callback of lines and the handle of a detached child.
-- The crate itself: what it does with a command, a pipeline or a group is a parameter. The names of
-- encodings and resources are tables of other libraries. In the hub's system, closing a Python
-- socket and cancelling a Future are taken not to raise. Message texts are left out but for the
-- fragments of text that is no JSON, and of an exception's attributes all but their names and
-- whether they are `None`. The step of Python that creates an exception type is taken not to raise.
pub mod Common
pub mod Errors
pub mod Hub
pub mod Logging
pub mod Runtime
pub mod Running
pub mod Sink
pub mod Batch
pub mod Presets
pub mod Supervision
pub mod Group
pub mod Durations
pub mod Crate
pub mod Encodings
pub mod Command
pub mod Results
pub mod Runner
pub mod Cli
