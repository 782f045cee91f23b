-- ===== src/Tasks/Twice.antt =====
-- A line that arrives between the wake-up of the Lua task and its load of active_index
-- (main/Core_Level.c).
use mathlib.Core.List.{append_assoc}
use clios.Prelude.{
  ℕ, ◌<◌, ◌≡◌, refl, sym, ap, ◌∙◌, true, List, [], ◌∷◌, ◌++◌, some, arith, get_or, take,
}
use clios.Shell.{perline_len, char_step, hand_over, quit}
use clios.Shell.Editor.{IsValid, char_step-IsValid}
use clios.Shell.Handoff.{active_line, hand_over_isolated, quit-active_line}
use clios.Repl.{Interpreter, Repl, handle}
use clios.Tasks.{scanning, waiting, woken, System, ends_line, handle_step, lua, turn, run}
use clios.Tasks.Handing.{run-append, handed, line_turns, hand_line}
use clios.Tasks.Taking.{line_reads, woken_turns, flag-IsValid}
use clios.Tasks.History.{handle_step-taken}

module _ {W : Type 0} (L : Interpreter W) where
  -- What a line that was handed over leaves for the Lua task.
  handed_line :
      (i : ℕ) (s : System W)
      → IsValid s.shell
      → ends_line i s ≡ true
      → active_line (char_step i s.shell) ≡ take s.shell.index s.shell.buffer_input
  unfolding char_step
  handed_line i s v ends = ground (
    arith,
    hand_over_isolated s.shell v,
    quit-active_line (get_or s.shell.buffer_input i 0) (hand_over s.shell),
  )

  handed_len :
      (i : ℕ) (s : System W)
      → IsValid s.shell
      → ends_line i s ≡ true
      → let t = char_step i s.shell in perline_len t t.active_index ≡ s.shell.index
  unfolding char_step hand_over quit
  handed_len i s v ends = ground arith

  -- A woken Lua task that is left alone.
  take_active :
      (s : System W) (n : ℕ) {line : List ℕ}
      → IsValid s.shell
      → s.reader ≡ woken
      → perline_len s.shell s.shell.active_index ≡ n
      → active_line s.shell ≡ line
      → run L (line_reads n) s ≡ handle_step L line s
  take_active s n v before e f =
      ap (λ k. run L (line_reads k) s) (sym e)
      ∙ woken_turns L s v before
      ∙ ap (λ l. handle_step L l s) f

  -- What a line leaves that has been handed over and taken, while the Lua task had a later
  -- notification.
  abbrev once : ℕ → ℕ → System W → Repl W → System W
  once i len s r = record (handed i len s) {
    shell = record (char_step i s.shell) { stop_flag = r.stop_flag };
    reader = waiting;
    repl = r;
    taken = s.taken ++ take s.shell.index s.shell.buffer_input ∷ [];
  }

  once_lem :
      (i len : ℕ) (s : System W) (line : List ℕ) {r : Repl W}
      → line ≡ take s.shell.index s.shell.buffer_input
      → handle L s.repl line ≡ some r
      → handle_step L line (handed i len s) ≡ once i len s r
  unfolding handle_step
  once_lem i len s line same e = ground arith

  again :
      (i len : ℕ) (s : System W) (r : Repl W)
      → turn L lua (once i len s r) ≡ record (once i len s r) { pending = 0; reader = woken }
  unfolding turn
  again i len s r = ground arith

  -- With all buffers in order, the Lua task was woken but has not loaded active_index yet, and the
  -- shell hands over a further line, for which the buffer of gathered lines has room: if the shell is
  -- done with it before the Lua task goes on, the Lua task takes this line twice in a row, and takes
  -- no other line before it, in particular not the one that it was woken for.
  pub line_taken_twice :
      (s : System W) (i len : ℕ) {r : Repl W}
      → IsValid s.shell
      → s.repl.stop_flag ≡ s.shell.stop_flag
      → s.writer ≡ scanning i len
      → i < len
      → ends_line i s ≡ true
      → s.reader ≡ woken
      → let line = take s.shell.index s.shell.buffer_input in
        let reads = line_reads s.shell.index in
        handle L s.repl line ≡ some r
        → (run L (line_turns s.shell.index ++ (reads ++ lua ∷ reads)) s).taken
          ≡ s.taken ++ line ∷ line ∷ []
  unfolding run turn
  line_taken_twice s i len {r} v f at more ends before e =
      let n = s.shell.index in
      let reads = line_reads n in
      let line = take n s.shell.buffer_input in
      let ok = char_step-IsValid i s.shell v in
      let woke : System W = record (once i len s r) { pending = 0; reader = woken } in
      ap (λ t. t.taken)
        (run-append L (line_turns n) (reads ++ lua ∷ reads) s
          ∙ ap (run L (reads ++ lua ∷ reads)) (hand_line L i len s at more v f ends)
          ∙ run-append L reads (lua ∷ reads) (handed i len s)
          ∙ ap (run L (lua ∷ reads)) (
              take_active (handed i len s) n ok before (handed_len i s v ends)
                (handed_line i s v ends)
              ∙ once_lem i len s line refl e)
          ∙ ap (run L reads) (again i len s r)
          ∙ take_active woke n (flag-IsValid r.stop_flag (char_step i s.shell) ok) refl
              (handed_len i s v ends) (handed_line i s v ends))
      ∙ handle_step-taken L line woke
      ∙ append_assoc s.taken (line ∷ []) (line ∷ [])
