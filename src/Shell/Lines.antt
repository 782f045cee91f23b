-- ===== src/Shell/Lines.antt =====
-- `_ShellTask` (main/Core_Level.c): what one chunk of input does to the shell when no line is
-- pending, against a specification that splits the input into lines.
use native.Mathlib.Nat.{add-zero, add-suc, suc-add}
use mathlib.Core.List.{append_assoc, append-nil, map-append}
use clios.Prelude.{
  ℕ, suc, ◌+◌, ◌≤◌, ◌<◌, ◌≡◌, refl, sym, ◌∙◌, List, [], ◌∷◌, ◌++◌, map, arith, ltb, if◌then◌else◌,
  length, get_or, set, take, drop, overwrite, c_str, length-set, length-append, length-overwrite,
  get_or-drop, drop-suc, drop-set_lt, take-set-suc, overwrite-append,
}
use clios.Shell.{Shell, is_eol, hand_over, quit, char_step, scan, shell_round}

-- The characters of the pending line after one more byte: a line keeps its first 63.
abbrev pub next_line : List ℕ → ℕ → List ℕ
next_line acc c = if is_eol c then [] else if ltb (length acc) 63 then acc ++ c ∷ [] else acc

-- The line that a byte completes, if any: an empty line is dropped.
abbrev pub completed : List ℕ → ℕ → List (List ℕ)
completed acc c = if is_eol c then (if ltb 0 (length acc) then acc ∷ [] else []) else []

-- The lines that an input completes after a pending line, and what is pending then.
unfoldable pub lines : List ℕ → List ℕ → List (List ℕ)
lines acc [] = []
lines acc (c ∷ cs) = completed acc c ++ lines (next_line acc c) cs

unfoldable pub pending : List ℕ → List ℕ → List ℕ
pending acc [] = acc
pending acc (c ∷ cs) = pending (next_line acc c) cs

-- The state in the loop of `_ShellTask`: `acc` is the pending line, `rest` the bytes from `i` on.
pub record Tracks (s : Shell) (acc : List ℕ) (i : ℕ) (rest : List ℕ) : Type 0 where
  pub size : length s.buffer_input ≡ 64
  pub index_length : s.index ≡ length acc
  pub behind : length acc ≤ i
  pub short : length acc ≤ 63
  pub prefix : take (length acc) s.buffer_input ≡ acc
  pub unread : drop i s.buffer_input ≡ rest

pub c_str-prefix :
    (buf acc : List ℕ)
    → length acc < length buf
    → take (length acc) buf ≡ acc
    → c_str (set buf (length acc) 0) ≡ c_str acc
c_str-prefix [] acc h e = elim h [ ]
c_str-prefix (x ∷ buf) [] h e = refl
c_str-prefix (x ∷ buf) (a ∷ acc) h e = ground (arith, c_str-prefix buf acc)

-- `quit` changes the flag alone.
quit-buffer : (c : ℕ) (s : Shell) → (quit c s).buffer_input ≡ s.buffer_input
unfolding quit
quit-buffer c s = ground arith

pub quit-index : (c : ℕ) (s : Shell) → (quit c s).index ≡ s.index
unfolding quit
quit-index c s = ground arith

pub quit-console : (c : ℕ) (s : Shell) → (quit c s).console ≡ s.console
unfolding quit
quit-console c s = ground arith

-- The state after the byte `c` at `i`, on each of its branches.
module _ (s : Shell) (acc : List ℕ) (i c : ℕ) (rest : List ℕ) (t : Tracks s acc i (c ∷ rest)) where
  pub byte : get_or s.buffer_input i 0 ≡ c
  byte = get_or-drop s.buffer_input i 0 t.unread

  unread_after : (v : ℕ) → drop (suc i) (set s.buffer_input s.index v) ≡ rest
  unread_after v =
      drop-set_lt s.buffer_input s.index (suc i) v (omega (arith, t.behind, t.index_length))
      ∙ drop-suc s.buffer_input i t.unread

  pub char_step-Tracks : Tracks (char_step i s) (next_line acc c) (suc i) rest
  unfolding char_step hand_over
  char_step-Tracks = ground (
    arith,
    byte,
    unread_after 0,
    unread_after c,
    drop-suc s.buffer_input i t.unread,
    length-set s.buffer_input s.index 0,
    length-set s.buffer_input s.index c,
    length-append acc (c ∷ []),
    take-set-suc s.buffer_input s.index c,
    quit-buffer c (hand_over s),
    quit-index c (hand_over s),
  )

  char_step-console : (char_step i s).console ≡ s.console ++ map c_str (completed acc c)
  unfolding char_step hand_over
  char_step-console = ground (
    arith,
    byte,
    append-nil s.console,
    c_str-prefix s.buffer_input acc,
    quit-console c (hand_over s),
  )

scan-Tracks :
    (cs acc : List ℕ) (i : ℕ) (s : Shell) (rest : List ℕ)
    → Tracks s acc i (cs ++ rest)
    → Tracks (scan (length cs) i s) (pending acc cs) (i + length cs) rest
unfolding scan pending
scan-Tracks [] acc i s rest t = rw add-zero t
scan-Tracks (c ∷ cs) acc i s rest t =
    rw (add-suc, ← suc-add)
      (scan-Tracks cs (next_line acc c) (suc i) (char_step i s) rest
        (char_step-Tracks s acc i c (cs ++ rest) t))

scan-console :
    (cs acc : List ℕ) (i : ℕ) (s : Shell) (rest : List ℕ)
    → Tracks s acc i (cs ++ rest)
    → (scan (length cs) i s).console ≡ s.console ++ map c_str (lines acc cs)
unfolding scan lines
scan-console [] acc i s rest t = sym (append-nil s.console)
scan-console (c ∷ cs) acc i s rest t =
    scan-console cs (next_line acc c) (suc i) (char_step i s) rest
      (char_step-Tracks s acc i c (cs ++ rest) t)
    ∙ rw (char_step-console s acc i c (cs ++ rest) t, append_assoc, ← map-append)

-- The state at the start of the loop: the chunk lies at the start of the buffer.
pub start-Tracks :
    (chunk : List ℕ) (s : Shell)
    → length s.buffer_input ≡ 64
    → s.index ≡ 0
    → length chunk ≤ 64
    → Tracks
        (record s { buffer_input = overwrite chunk s.buffer_input })
        []
        0
        (chunk ++ drop (length chunk) s.buffer_input)
start-Tracks chunk s size idle h = record {
  size = length-overwrite chunk s.buffer_input ∙ size;
  index_length = idle;
  behind = omega arith;
  short = omega arith;
  prefix = refl;
  unread = overwrite-append chunk s.buffer_input (omega arith);
}

-- If no line is pending and the UART delivers at most 64 bytes, the round echoes exactly the lines
-- that the specification splits off, in order, and what it keeps in the buffer is the pending line.
pub shell_round-lines :
    (chunk : List ℕ) (s : Shell)
    → length s.buffer_input ≡ 64
    → s.index ≡ 0
    → length chunk ≤ 64
    → let t = shell_round chunk s in
      (t.console ≡ s.console ++ map c_str (lines [] chunk))
      × (t.index ≡ length (pending [] chunk))
      × (take t.index t.buffer_input ≡ pending [] chunk)
unfolding shell_round
shell_round-lines chunk s size idle h =
    let start = start-Tracks chunk s size idle h in
    let t = scan-Tracks chunk [] 0 _ (drop (length chunk) s.buffer_input) start in
    (
      scan-console chunk [] 0 _ (drop (length chunk) s.buffer_input) start,
      t.index_length,
      rw (t.index_length) t.prefix,
    )
