-- ===== src/Shell/Editor.antt =====
-- `_ShellTask` (main/Core_Level.c): what one chunk of input does to the shell, against a
-- specification that splits the input into lines.
use clios.Prelude.{
  ℕ, zero, suc, ◌≤◌, ◌<◌, ◌≡◌, ◌∙◌, List, [], ◌∷◌, arith, length, get_or, take, overwrite,
  length-set, length-overwrite, get_or-set_self,
}
use clios.Shell.{Shell, copy_line, hand_over, quit, char_step, scan, shell_round, shell, init}

-- What holds between two bytes: every buffer has its size, every index is below it, and the line
-- that is handed over is terminated at its length.
pub record IsValid (s : Shell) : Type 0 where
  pub input_size : length s.buffer_input ≡ 64
  pub index_below : s.index ≤ 63
  pub size0 : length s.perline0 ≡ 64
  pub size1 : length s.perline1 ≡ 64
  pub len0_below : s.perline_len0 ≤ 63
  pub len1_below : s.perline_len1 ≤ 63
  pub terminated0 : get_or s.perline0 s.perline_len0 1 ≡ 0
  pub terminated1 : get_or s.perline1 s.perline_len1 1 ≡ 0

length-copy_line :
    (src : List ℕ) (len : ℕ) (dst : List ℕ) → length (copy_line src len dst) ≡ length dst
unfolding copy_line
length-copy_line src len dst =
    length-set (overwrite (take len src) dst) len 0 ∙ length-overwrite (take len src) dst

copy_line-terminated :
    (src : List ℕ) (len : ℕ) (dst : List ℕ)
    → len < length dst
    → get_or (copy_line src len dst) len 1 ≡ 0
unfolding copy_line
copy_line-terminated src len dst h =
    get_or-set_self (overwrite (take len src) dst) len 0 1
      (omega (arith, length-overwrite (take len src) dst))

hand_over-IsValid : (s : Shell) → IsValid s → IsValid (hand_over s)
unfolding hand_over
hand_over-IsValid s v = grind (arith, length-copy_line, copy_line-terminated, length-set)

quit-IsValid : (c : ℕ) (s : Shell) → IsValid s → IsValid (quit c s)
unfolding quit
quit-IsValid c s v = ground arith

pub char_step-IsValid : (i : ℕ) (s : Shell) → IsValid s → IsValid (char_step i s)
unfolding char_step
char_step-IsValid i s v =
    let c = get_or s.buffer_input i 0 in
    ground (
      arith,
      quit-IsValid c (hand_over s),
      hand_over-IsValid s,
      length-set s.buffer_input s.index c,
    )

scan-IsValid : (k i : ℕ) (s : Shell) → IsValid s → IsValid (scan k i s)
unfolding scan
scan-IsValid zero i s v = v
scan-IsValid (suc k) i s v = scan-IsValid k (suc i) (char_step i s) (char_step-IsValid i s v)

pub overwrite-IsValid :
    (chunk : List ℕ) (s : Shell)
    → IsValid s
    → IsValid (record s { buffer_input = overwrite chunk s.buffer_input })
overwrite-IsValid chunk s v = grind (arith, length-overwrite)

pub shell_round-IsValid : (chunk : List ℕ) (s : Shell) → IsValid s → IsValid (shell_round chunk s)
unfolding shell_round
shell_round-IsValid chunk s v = scan-IsValid (length chunk) 0 _ (overwrite-IsValid chunk s v)

pub init-IsValid : (stack : List ℕ) → length stack ≡ 64 → IsValid (init stack)
unfolding init
init-IsValid stack h = ground arith

-- Whatever arrives on the UART, every buffer keeps its size of 64 bytes, every index and length
-- stays at most 63, and both line buffers are NUL-terminated at their recorded length.
pub shell-IsValid : (chunks : List (List ℕ)) (s : Shell) → IsValid s → IsValid (shell chunks s)
unfolding shell
shell-IsValid [] s v = v
shell-IsValid (chunk ∷ chunks) s v =
    shell-IsValid chunks (shell_round chunk s) (shell_round-IsValid chunk s v)
