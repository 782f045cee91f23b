-- ===== src/Tasks/Interrupt.antt =====
-- The flag that interrupts a running chunk (main/Core_Level.c), under any order of the accesses of
-- both tasks.
use clios.Prelude.{ℕ, ◌≡◌, true, false, List, [], ◌∷◌, some, arith, inl, inr, Option-cases}
use clios.Shell.{is_eol, quit}
use clios.Shell.Handoff.{char_step-stop_flag}
use clios.Repl.{
  Interpreter, Repl, interrupt_hook, handle, append_line, append_bytes, end_line, evaluate,
  call_chunk, refuse, retry, syntax_error, reset,
}
use clios.Tasks.{
  Writer, scanning, copying, recording, publishing, notifying, Reader, waiting, woken, indexed,
  reading, stopped, System, writer_at, reader_at, handle_step, Turn, shell, lua, turn, run,
}

-- The byte that ended the line which is handed over.
abbrev pub Ended : Writer → Type 0
Ended (scanning i len) = Unit {0}
Ended (copying l k) = is_eol l.c ≡ true
Ended (recording l) = is_eol l.c ≡ true
Ended (publishing l) = is_eol l.c ≡ true
Ended (notifying l) = is_eol l.c ≡ true

-- The flag is not set, and a line is only handed over at a byte that ends it.
pub record Unset {W : Type 0} (s : System W) : Type 0 where
  pub shell_flag : s.shell.stop_flag ≡ false
  pub repl_flag : s.repl.stop_flag ≡ false
  pub ended : Ended s.writer

module _ {W : Type 0} where
  writer_at-Unset :
      (w : Writer) (chunk : List ℕ) (s : System W)
      → Ended w
      → s.shell.stop_flag ≡ false
      → s.repl.stop_flag ≡ false
      → Unset (writer_at w chunk s)
  unfolding writer_at quit
  writer_at-Unset (scanning i len) chunk s e f g = ground (arith, char_step-stop_flag i s.shell)
  writer_at-Unset (copying l k) chunk s e f g = ground arith
  writer_at-Unset (recording l) chunk s e f g = ground arith
  writer_at-Unset (publishing l) chunk s e f g = ground arith
  writer_at-Unset (notifying l) chunk s e f g = ground arith

  module _ (L : Interpreter W) where
    evaluate-stop_flag : (s : Repl W) → s.stop_flag ≡ false → (evaluate L s).stop_flag ≡ false
    unfolding evaluate call_chunk refuse retry syntax_error reset end_line
    evaluate-stop_flag s f = ground arith

    handle-stop_flag :
        (s : Repl W) (line : List ℕ) {t : Repl W}
        → s.stop_flag ≡ false
        → handle L s line ≡ some t
        → t.stop_flag ≡ false
    unfolding handle append_line append_bytes end_line
    handle-stop_flag s line f e =
        ground (arith, evaluate-stop_flag (end_line (append_bytes s line)))

    reader_at-Unset : (r : Reader) (s : System W) → Unset s → Unset (reader_at L r s)
    unfolding reader_at handle_step
    reader_at-Unset waiting s u = ground arith
    reader_at-Unset woken s u = ground arith
    reader_at-Unset (indexed idx) s u = ground arith
    reader_at-Unset (reading idx len got) s u = elim (Option-cases (handle L s.repl got)) [
      | inl undefined ↦ ground arith
      | inr (r, e) ↦ ground (arith, handle-stop_flag s.repl got u.repl_flag e)
    ]
    reader_at-Unset stopped s u = ground arith

    run-Unset : (xs : List Turn) (s : System W) → Unset s → Unset (run L xs s)
    unfolding run turn
    run-Unset [] s u = u
    run-Unset (shell chunk ∷ xs) s u =
        run-Unset xs (turn L (shell chunk) s)
          (writer_at-Unset s.writer chunk s u.ended u.shell_flag u.repl_flag)
    run-Unset (lua ∷ xs) s u = run-Unset xs (turn L lua s) (reader_at-Unset s.reader s u)

    -- From a state in which the flag is not set and the shell hands over no line, no order of the
    -- accesses of both tasks, no input and no answer of Lua ever sets it or lets the hook raise its
    -- error: what runs is never interrupted from the console.
    pub never_interrupted :
        (xs : List Turn) (s : System W) (i len : ℕ)
        → s.writer ≡ scanning i len
        → s.shell.stop_flag ≡ false
        → s.repl.stop_flag ≡ false
        → let t = run L xs s in (t.shell.stop_flag ≡ false) × (interrupt_hook t.repl ≡ false)
    never_interrupted xs s i len at f g = ground (arith, run-Unset xs s)
