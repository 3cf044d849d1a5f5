-- ===== src/Sink/Write.antt =====
-- src/convert.rs, lines 208 to 336: what a writer has accepted of a buffer.
use mathlib.Core.List.{append-nil, append_assoc}
use processkit_py.Common.{
  ℕ, zero, suc, ◌≤◌, ◌<◌, ◌≡◌, ◌≢◌, ◌∙◌, ap, refl, inl, inr, Bool, true, false, none, some, [], ◌∷◌,
  ◌++◌, arith, Result, ok, take, drop, length, Text, length-drop, take-append-drop, take-length,
  Result-cases,
}
use processkit_py.Sink.{
  Reply, raises, count, other, nonnegative, negative, WriteError, validate_py_write_result,
  write_loop, call_py_write,
}

-- What a call accepted, by the writer's protocol: as many units as it counted, and everything if it
-- returned no count.
abbrev accepted : Reply → Text → Text
accepted (raises e) buffer = []
accepted (count (nonnegative n)) buffer = take n buffer
accepted (count (negative n)) buffer = []
accepted other buffer = buffer

-- A writer that also keeps what it has accepted.
abbrev pub recording : {W : Type 0} → (W → Text → Reply × W) → W × Text → Text → Reply × (W × Text)
recording write (w, log) buffer =
    let (reply, w') = write w buffer in (reply, (w', log ++ accepted reply buffer))

accepted-append :
    (reply : Reply) (buffer : Text) → (rest : Text) × (accepted reply buffer ++ rest ≡ buffer)
accepted-append (raises e) buffer = (buffer, refl)
accepted-append (count (nonnegative n)) buffer = (drop n buffer, take-append-drop n buffer)
accepted-append (count (negative n)) buffer = (buffer, refl)
accepted-append other buffer = ([], append-nil buffer)

validated-accepted :
    (usize_max : ℕ) (reply : Reply) (buffer : Text) (written : ℕ)
    → validate_py_write_result usize_max reply (length buffer) ≡ ok written
    → accepted reply buffer ≡ take written buffer
unfolding validate_py_write_result
validated-accepted usize_max (raises e) buffer written h = ground (arith, h)
validated-accepted usize_max (count (nonnegative n)) buffer written h = ground (arith, h)
validated-accepted usize_max (count (negative n)) buffer written h = ground (arith, h)
validated-accepted usize_max other buffer written h = ground (arith, h, take-length buffer)

validated-bounds :
    (usize_max : ℕ) (reply : Reply) (n written : ℕ)
    → 0 < n
    → validate_py_write_result usize_max reply n ≡ ok written
    → (0 < written) × (written ≤ n)
unfolding validate_py_write_result
validated-bounds usize_max reply n written p h = ground arith

write_loop-ends :
    {W : Type 0} (write : W → Text → Reply × W) (usize_max fuel : ℕ) (w : W) (buffer : Text)
    → length buffer ≤ fuel
    → write_loop write usize_max fuel w buffer ≢ none
unfolding write_loop
write_loop-ends write usize_max zero w [] h e = cc
write_loop-ends write usize_max (suc fuel) w [] h e = cc
write_loop-ends write usize_max zero w (x ∷ xs) h e = absurd (omega arith)
write_loop-ends write usize_max (suc fuel) w (x ∷ xs) h e =
    elim (Result-cases
      (validate_py_write_result usize_max (write w (x ∷ xs)).0 (length (x ∷ xs)))) [
        | inl (fault, refused) ↦ ground arith
        | inr (written, taken) ↦
            let (some_taken, bounded) =
              validated-bounds usize_max (write w (x ∷ xs)).0 (length (x ∷ xs)) written
                (omega arith) taken in
            write_loop-ends write usize_max fuel (write w (x ∷ xs)).1 (drop written (x ∷ xs))
              (omega (arith, length-drop written (x ∷ xs))) (ground arith)
      ]

-- What a writer has accepted, with what it has not: the buffer, and all of it if the write is `ok`.
abbrev pub Accounts : Text → Text → Result WriteError (Unit {0}) → Text → Type 0
Accounts log buffer r log' =
    (rest : Text) × (log' ++ rest ≡ log ++ buffer) × (r ≡ ok tt → rest ≡ [])

write_loop-Accounts :
    {W : Type 0} (write : W → Text → Reply × W) (usize_max fuel : ℕ) (w w' : W)
    (log log' buffer : Text) (r : Result WriteError (Unit {0}))
    → write_loop (recording write) usize_max fuel (w, log) buffer ≡ some (r, (w', log'))
    → Accounts log buffer r log'
unfolding write_loop
write_loop-Accounts write usize_max zero w w' log log' [] r h = ([], ground arith, λ e. refl)
write_loop-Accounts write usize_max (suc fuel) w w' log log' [] r h = ([], ground arith, λ e. refl)
write_loop-Accounts write usize_max zero w w' log log' (x ∷ xs) r h = cc
write_loop-Accounts write usize_max (suc fuel) w w' log log' (x ∷ xs) r h =
    elim (Result-cases
      (validate_py_write_result usize_max (write w (x ∷ xs)).0 (length (x ∷ xs)))) [
        | inl (fault, refused) ↦
            let reply = (write w (x ∷ xs)).0 in
            let (rest, all) = accepted-append reply (x ∷ xs) in
            let kept : log ++ accepted reply (x ∷ xs) ≡ log' = ground arith in
            (
              rest,
              rw (← kept) (append_assoc log (accepted reply (x ∷ xs)) rest ∙ ap (◌++◌ log) all),
              λ e. ground arith,
            )
        | inr (written, valid) ↦
            let same = validated-accepted usize_max (write w (x ∷ xs)).0 (x ∷ xs) written valid in
            let (rest, all, complete) =
              write_loop-Accounts write usize_max fuel (write w (x ∷ xs)).1 w'
                (log ++ take written (x ∷ xs)) log' (drop written (x ∷ xs)) r
                (ground (arith, same)) in
            (
              rest,
              all
                  ∙ append_assoc log (take written (x ∷ xs)) (drop written (x ∷ xs))
                  ∙ ap (◌++◌ log) (take-append-drop written (x ∷ xs)),
              complete,
            )
      ]

-- A tee write always ends, with one round for each unit of the buffer as fuel, whatever the writer
-- answers, on a live or a finalizing interpreter.
pub call_py_write-ends :
    {W : Type 0} (write : W → Text → Reply × W) (usize_max : ℕ) (attached : Bool) (w : W)
    (buffer : Text)
    → call_py_write write usize_max attached w buffer ≢ none
unfolding call_py_write
call_py_write-ends write usize_max attached w buffer =
    ground (arith, write_loop-ends write usize_max (length buffer) w buffer (omega arith))

-- Short writes lose and repeat nothing: what the writer has accepted, in all its calls together (the
-- units that it counted, or all that it was offered if it returned no count), is a prefix of the
-- buffer, and if the write succeeds it is exactly the buffer.
pub call_py_write-exact :
    {W : Type 0} (write : W → Text → Reply × W) (usize_max : ℕ) (attached : Bool) (w w' : W)
    (log' buffer : Text) (r : Result WriteError (Unit {0}))
    → call_py_write (recording write) usize_max attached (w, []) buffer ≡ some (r, (w', log'))
    → Accounts [] buffer r log'
unfolding call_py_write
call_py_write-exact write usize_max true w w' log' buffer r h =
    write_loop-Accounts write usize_max (length buffer) w w' [] log' buffer r h
call_py_write-exact write usize_max false w w' log' buffer r h =
    (buffer, ground arith, λ e. ground arith)
