-- ===== src/Results/Streams.antt =====
-- src/result.rs, lines 670 to 800 and 944 to 958: the two streams of events of a process.
use mathlib.Core.Option
use processkit_py.Common.{◌≡◌, refl, some, arith}
use processkit_py.Results.{
  ProcessEvent, started, stdout, stderr, exited, other, OutputEvent, from_event, output_stream,
  lifecycle_stream, lifecycle_event,
}

-- The stream of output events and the stream of lifecycle events agree: an event of a process gives an
-- output event exactly if its lifecycle event is on a stream, and then both have the same stream and
-- the same text.
pub from_event-agrees :
    {O : Type 0} (event : ProcessEvent O)
    → (Option.map output_stream (from_event event) ≡ lifecycle_stream (lifecycle_event event).kind)
      × ((e : OutputEvent) → from_event event ≡ some e → (lifecycle_event event).text ≡ some e.text)
unfolding from_event lifecycle_event lifecycle_stream output_stream
from_event-agrees (started pid) = (refl, λ e h. ground arith)
from_event-agrees (stdout line) = (refl, λ e h. ground arith)
from_event-agrees (stderr line) = (refl, λ e h. ground arith)
from_event-agrees (exited o) = (refl, λ e h. ground arith)
from_event-agrees other = (refl, λ e h. ground arith)
