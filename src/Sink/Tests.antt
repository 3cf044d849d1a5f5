-- ===== src/Sink/Tests.antt =====
-- src/convert.rs: the sink over writers that accept one unit at a time, or none.
use processkit_py.Common.{
  ℕ, ◌≡◌, ◌≢◌, refl, true, none, some, [], ◌∷◌, ok, err, Text, codes, suc, arith,
}
use processkit_py.Sink.{
  Reply, count, nonnegative, WriteError, call_py_write, write_loop, validate_py_write_result,
}
use processkit_py.Sink.Write.{recording, Accounts, call_py_write-ends, call_py_write-exact}
use processkit_py.Sink.Poll.{returned, write, writes, Sink, Pool, poll_write}
use processkit_py.Sink.Poll.Protocol.{IsValid, Answers, WriteReport, poll_write-Answers}

-- The writer counts its calls and accepts one unit in each.
abbrev sips : ℕ → Text → Reply × ℕ
sips calls buffer = (count (nonnegative 1), suc calls)

call_py_write-ends_example : call_py_write sips 255 true 0 (codes "abc") ≢ none
call_py_write-ends_example = call_py_write-ends sips 255 true 0 (codes "abc")

sipped :
    call_py_write (recording sips) 255 true (0, []) (codes "abc") ≡ some (ok tt, (3, codes "abc"))
unfolding call_py_write write_loop validate_py_write_result
sipped = refl

call_py_write-exact_example : Accounts [] (codes "abc") (ok tt) (codes "abc")
call_py_write-exact_example =
    call_py_write-exact sips 255 true 0 3 (codes "abc") (codes "abc") (ok tt) sipped

-- The writer refuses to make progress.
abbrev stalls : ℕ → Text → Reply × ℕ
stalls calls buffer = (count (nonnegative 0), suc calls)

stalled : call_py_write stalls 255 true 0 (codes "abc") ≡ some (err WriteError.zero_count, 1)
unfolding call_py_write write_loop validate_py_write_result
stalled = refl

-- A write of three units is in flight, and has succeeded.
abbrev busy : Sink
busy = record { pending = some (write 0 3); next_op = 1; jobs = writes (codes "abc") ∷ [] }

abbrev all_done : Pool
all_done op = some (returned (ok tt))

busy-IsValid : IsValid busy
busy-IsValid = (refl, refl, omega arith)

poll_write-Answers_example :
    Answers
      (WriteReport all_done)
      (writes (codes "abc"))
      busy.jobs
      (poll_write all_done (codes "abc") busy)
poll_write-Answers_example = poll_write-Answers all_done b'a' (codes "bc") busy busy-IsValid
