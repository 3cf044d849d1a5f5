-- ===== src/Running/Stdin/Tests.antt =====
-- Runs of src/running.rs on a concrete writer.
use processkit_py.Common.{ℕ, ◌≡◌, refl, none, some, List, [], ◌∷◌, ◌++◌, ok, err, codes}
use processkit_py.Running.Stdin.{Writer, IoError, from_io, mapped}
use processkit_py.Running.Stdin.Lifecycle.{
  Op, write, flush, close, perform_all, answers_after_close, perform_all-close,
}

-- The pipe, as the bytes that it has got; a finish is a byte 0.
abbrev pipe : Writer (List ℕ)
pipe = record {
  write = λ bytes w. (w ++ bytes, ok tt);
  write_line = λ line w. (w ++ line ++ 10 ∷ [], ok tt);
  send_control = λ c w. (w, err IoError.invalid_input);
  flush = λ w. (w, ok tt);
  finish = λ w. (w ++ 0 ∷ [], ok tt);
}

abbrev written : List Op
written = write (codes "a") ∷ flush ∷ write (codes "b") ∷ []

abbrev late : List Op
late = write (codes "c") ∷ close ∷ []

perform_all-close_example :
    ((perform_all written (some pipe, [])).0.0 ≡ some pipe)
    × (perform_all (written ++ close ∷ late) (some pipe, []) ≡ (
      (none, (pipe.finish (perform_all written (some pipe, [])).0.1).0),
      (perform_all written (some pipe, [])).1
          ++ mapped from_io (pipe.finish (perform_all written (some pipe, [])).0.1).1
            ∷ answers_after_close late,
    ))
perform_all-close_example = perform_all-close pipe [] written late refl
