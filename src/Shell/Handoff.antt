-- ===== src/Shell/Handoff.antt =====
-- The double buffer between `_ShellTask` and `_HandleLuaCommand` (main/Core_Level.c): what the Lua
-- task finds in it after a chunk of input, and what becomes of lines that it had no time for.
use clios.Prelude.{
  ℕ, zero, suc, ◌+◌, ◌≤◌, ◌≡◌, refl, sym, ap, ◌∙◌, not, List, [], ◌∷◌, ◌++◌, arith, length, set,
  take, drop, overwrite, length-set, length-take, take-set_le, take-overwrite, length-append,
}
use clios.Shell.{
  Shell, perline, perline_len, copy_line, hand_over, quit, char_step, scan, shell_round, shell,
}
use clios.Shell.Editor.{IsValid, overwrite-IsValid, char_step-IsValid}
use clios.Shell.Lines.{Tracks, char_step-Tracks, start-Tracks, byte, next_line, completed, lines}

-- buffer_perline[active_index], up to its recorded length: what the Lua task copies.
abbrev pub active_line : Shell → List ℕ
active_line s = take (perline_len s s.active_index) (perline s s.active_index)

-- The last of the lines, or the one before them.
abbrev pub latest : List ℕ → List (List ℕ) → List ℕ
latest l [] = l
latest l (m ∷ ms) = latest m ms

take-copy_line :
    (src : List ℕ) (len : ℕ) (dst : List ℕ)
    → len ≤ length src
    → len ≤ length dst
    → take len (copy_line src len dst) ≡ take len src
unfolding copy_line
take-copy_line src len dst h k =
    take-set_le (overwrite (take len src) dst) len len 0 (omega arith)
    ∙ ap (λ n. take n (overwrite (take len src) dst)) (sym exact)
    ∙ take-overwrite (take len src) dst (omega (arith, exact))
  where
    exact : length (take len src) ≡ len
    exact = omega (arith, length-take len src)

-- A completed line goes to the buffer that the Lua task is not reading, and the other buffer keeps
-- its line and its length.
pub hand_over_isolated :
    (s : Shell)
    → IsValid s
    → let t = hand_over s in
      (t.active_index ≡ not s.active_index)
      × (active_line t ≡ take s.index s.buffer_input)
      × (perline t s.active_index ≡ perline s s.active_index)
      × (perline_len t s.active_index ≡ perline_len s s.active_index)
      × (t.notified ≡ s.notified + 1)
unfolding hand_over
hand_over_isolated s v = ground (
  arith,
  take-set_le s.buffer_input s.index s.index 0,
  length-set s.buffer_input s.index 0,
  take-copy_line (set s.buffer_input s.index 0) s.index s.perline0,
  take-copy_line (set s.buffer_input s.index 0) s.index s.perline1,
)

latest-append : (l : List ℕ) (ms ns : List (List ℕ)) → latest l (ms ++ ns) ≡ latest (latest l ms) ns
latest-append l [] ns = refl
latest-append l (m ∷ ms) ns = latest-append m ms ns

-- `quit` changes neither buffer.
pub quit-active_line : (c : ℕ) (s : Shell) → active_line (quit c s) ≡ active_line s
unfolding quit
quit-active_line c s = ground arith

quit-notified : (c : ℕ) (s : Shell) → (quit c s).notified ≡ s.notified
unfolding quit
quit-notified c s = ground arith

module _ (s : Shell) (v : IsValid s) (acc : List ℕ) (i c : ℕ) (rest : List ℕ)
    (t : Tracks s acc i (c ∷ rest)) where
  handed : active_line (hand_over s) ≡ acc
  handed = (hand_over_isolated s v).1 ∙ ap (λ n. take n s.buffer_input) t.index_length ∙ t.prefix

  char_step-latest : active_line (char_step i s) ≡ latest (active_line s) (completed acc c)
  unfolding char_step
  char_step-latest =
      ground
        (arith, byte s acc i c rest t, handed, quit-active_line c (hand_over s), t.index_length)

  char_step-notified : (char_step i s).notified ≡ s.notified + length (completed acc c)
  unfolding char_step
  char_step-notified =
      ground (arith, byte s acc i c rest t, quit-notified c (hand_over s), hand_over_isolated s v)

scan-latest :
    (cs acc : List ℕ) (i : ℕ) (s : Shell) (rest : List ℕ)
    → IsValid s
    → Tracks s acc i (cs ++ rest)
    → (active_line (scan (length cs) i s) ≡ latest (active_line s) (lines acc cs))
      × ((scan (length cs) i s).notified ≡ s.notified + length (lines acc cs))
unfolding scan lines
scan-latest [] acc i s rest v t = (refl, omega arith)
scan-latest (c ∷ cs) acc i s rest v t =
    let later =
      scan-latest cs (next_line acc c) (suc i) (char_step i s) rest (char_step-IsValid i s v)
        (char_step-Tracks s acc i c (cs ++ rest) t) in
    (
      later.0
          ∙ ap (λ l. latest l (lines (next_line acc c) cs))
              (char_step-latest s v acc i c (cs ++ rest) t)
          ∙ sym (latest-append (active_line s) (completed acc c) (lines (next_line acc c) cs)),
      omega (
        arith,
        later.1,
        char_step-notified s v acc i c (cs ++ rest) t,
        length-append (completed acc c) (lines (next_line acc c) cs),
      ),
    )

-- After a round that starts with no pending line, the Lua task is notified once for each line of
-- the chunk, and the line it finds is the last of them: an earlier one is nowhere kept for it.
pub shell_round-latest :
    (chunk : List ℕ) (s : Shell)
    → IsValid s
    → s.index ≡ 0
    → length chunk ≤ 64
    → let t = shell_round chunk s in
      (active_line t ≡ latest (active_line s) (lines [] chunk))
      × (t.notified ≡ s.notified + length (lines [] chunk))
unfolding shell_round
shell_round-latest chunk s v idle h =
    scan-latest chunk [] 0 _ (drop (length chunk) s.buffer_input) (overwrite-IsValid chunk s v)
      (start-Tracks chunk s v.input_size idle h)

-- A byte of input never sets the flag that interrupts Lua: the test for `q` stands inside the test
-- for the end of a line.
pub char_step-stop_flag : (i : ℕ) (s : Shell) → (char_step i s).stop_flag ≡ s.stop_flag
unfolding char_step hand_over quit
char_step-stop_flag i s = ground arith

scan-stop_flag : (k i : ℕ) (s : Shell) → (scan k i s).stop_flag ≡ s.stop_flag
unfolding scan
scan-stop_flag zero i s = refl
scan-stop_flag (suc k) i s = scan-stop_flag k (suc i) (char_step i s) ∙ char_step-stop_flag i s

-- No input, of whatever bytes and in whatever chunks, makes the shell raise or clear the flag that
-- interrupts a running Lua chunk.
shell-stop_flag : (chunks : List (List ℕ)) (s : Shell) → (shell chunks s).stop_flag ≡ s.stop_flag
unfolding shell shell_round
shell-stop_flag [] s = refl
shell-stop_flag (chunk ∷ chunks) s =
    shell-stop_flag chunks (shell_round chunk s) ∙ scan-stop_flag (length chunk) 0 _
