-- ===== src/Running/Stdin/Lifecycle.antt =====
-- src/running.rs, lines 455 to 533: any sequence of operations on a writer.
use processkit_py.Common.{
  ℕ, ◌≡◌, refl, Bool, true, false, none, some, List, [], ◌∷◌, ◌++◌, ◌||◌, Result, ok, err, arith,
  Text,
}
use processkit_py.Errors.{PyErr, os_error, value_error}
use processkit_py.Running.Stdin
use processkit_py.Running.Stdin.{Writer, Stdin, Answered, from_io, mapped}

pub data Op : Type 0 where
  write : List ℕ → Op
  write_line send_control : Text → Op
  flush close : Op

module _ {W : Type 0} where
  unfoldable pub perform : Op → Stdin W → Answered W
  unfolding Stdin.write Stdin.write_line Stdin.send_control Stdin.flush Stdin.close
  perform (write bytes) s = Stdin.write bytes s
  perform (write_line line) s = Stdin.write_line line s
  perform (send_control text) s = Stdin.send_control text s
  perform flush s = Stdin.flush s
  perform close s = Stdin.close s

  unfoldable pub perform_all : List Op → Stdin W → Stdin W × List (Result PyErr (Unit {0}))
  unfolding perform
  perform_all [] s = (s, [])
  perform_all (op ∷ ops) s =
      let r = perform op s in let rest = perform_all ops r.0 in (rest.0, r.1 ∷ rest.1)

abbrev pub is_close : Op → Bool
is_close close = true
is_close op = false

abbrev pub any_close : List Op → Bool
any_close [] = false
any_close (op ∷ ops) = is_close op || any_close ops

-- What an operation answers once the writer is closed.
abbrev pub after_close : Op → Result PyErr (Unit {0})
after_close close = ok tt
after_close (send_control []) = err value_error
after_close (send_control (c ∷ d ∷ more)) = err value_error
after_close op = err os_error

abbrev pub answers_after_close : List Op → List (Result PyErr (Unit {0}))
answers_after_close [] = []
answers_after_close (op ∷ ops) = after_close op ∷ answers_after_close ops

module _ {W : Type 0} where
  perform-closed : (op : Op) (w : W) → perform op (none, w) ≡ ((none, w), after_close op)
  unfolding perform
  perform-closed (write bytes) w = refl
  perform-closed (write_line line) w = refl
  perform-closed (send_control []) w = refl
  perform-closed (send_control (c ∷ [])) w = refl
  perform-closed (send_control (c ∷ d ∷ more)) w = refl
  perform-closed flush w = refl
  perform-closed close w = refl

  perform_all-closed :
      (ops : List Op) (w : W) → perform_all ops (none, w) ≡ ((none, w), answers_after_close ops)
  unfolding perform_all
  perform_all-closed [] w = refl
  perform_all-closed (op ∷ ops) w = ground (arith, perform-closed op w, perform_all-closed ops w)

  perform-open :
      (op : Op) (writer : Writer W) (w : W)
      → is_close op ≡ false
      → (perform op (some writer, w)).0.0 ≡ some writer
  unfolding perform
  perform-open (write bytes) writer w h = refl
  perform-open (write_line line) writer w h = refl
  perform-open (send_control []) writer w h = refl
  perform-open (send_control (c ∷ [])) writer w h = refl
  perform-open (send_control (c ∷ d ∷ more)) writer w h = refl
  perform-open flush writer w h = refl
  perform-open close writer w h = ground arith

  -- Up to the first `close` the writer stays, whether or not its operations fail; `close` finishes it,
  -- once; and whatever is done after it reaches nothing, and raises an `OSError`, or the `ValueError`
  -- of a control that is not one character, or nothing for another `close`.
  pub perform_all-close :
      (writer : Writer W) (w : W) (before after : List Op)
      → any_close before ≡ false
      → let r = perform_all before (some writer, w) in
        (r.0.0 ≡ some writer)
        × (perform_all (before ++ close ∷ after) (some writer, w) ≡ (
          (none, (writer.finish r.0.1).0),
          r.1 ++ mapped from_io (writer.finish r.0.1).1 ∷ answers_after_close after,
        ))
  unfolding perform_all perform
  perform_all-close writer w [] after h =
      (refl, ground (arith, perform_all-closed after (writer.finish w).0))
  perform_all-close writer w (op ∷ ops) after h =
      let w' = (perform op (some writer, w)).0.1 in
      ground (
        arith,
        perform-open op writer w (ground arith),
        perform_all-close writer w' ops after (ground arith),
      )
