-- ===== src/Tasks/Bounds.antt =====
-- The double buffer of main/Core_Level.c under any order of the accesses of the two tasks.
use clios.Prelude.{
  ℕ, ◌≤◌, ◌<◌, ◌≡◌, not, List, [], ◌∷◌, ◌++◌, arith, length, length-set, length-overwrite,
  length-append, get_or, ◌+◌, none, Option-cases, inl, inr, refl,
}
use clios.Shell.{Shell, perline, char_step, hand_over, quit, copy_line}
use clios.Repl.{Repl, Interpreter, handle, append_line}
use clios.Tasks.{
  Writer, scanning, copying, recording, publishing, notifying, Reader, waiting, woken, indexed,
  reading, stopped, System, writer_at, reader_at, handle_step, Turn, shell, lua, turn, run,
}

-- The sizes of the buffers, and what the indices and the lengths are at most.
pub record Fits (s : Shell) : Type 0 where
  pub input_size : length s.buffer_input ≡ 64
  pub index_below : s.index ≤ 63
  pub size0 : length s.perline0 ≡ 64
  pub size1 : length s.perline1 ≡ 64
  pub len0_below : s.perline_len0 ≤ 63
  pub len1_below : s.perline_len1 ≤ 63

-- The place of the shell: in the loop an index into the bytes read, and from the start of the memcpy
-- to the store of active_index a buffer that is not the active one.
abbrev pub Placed : Writer → Shell → Type 0
Placed (scanning i len) s = (i ≤ len) × (len ≤ 64)
Placed (copying l k) s =
    (l.next_index ≡ not s.active_index) × (k ≤ s.index) × (l.i < l.len) × (l.len ≤ 64)
Placed (recording l) s = (l.next_index ≡ not s.active_index) × (l.i < l.len) × (l.len ≤ 64)
Placed (publishing l) s = (l.next_index ≡ not s.active_index) × (l.i < l.len) × (l.len ≤ 64)
Placed (notifying l) s = (l.i < l.len) × (l.len ≤ 64)

-- The place of the Lua task, with the length of the gathered text and the lines taken: in the memcpy it has copied no more
-- bytes than a line has, and it has stopped only at a line, the last taken, of at most 63 bytes, that
-- does not fit behind that text into the 256 bytes of buffer_multiline.
abbrev pub Within : Reader → ℕ → List (List ℕ) → Type 0
Within (reading idx len got) gathered taken = (length got ≤ len) × (len ≤ 63)
Within waiting gathered taken = Unit {0}
Within woken gathered taken = Unit {0}
Within (indexed idx) gathered taken = Unit {0}
Within stopped gathered taken =
    (before : List (List ℕ)) × (line : List ℕ) × (taken ≡ before ++ line ∷ [])
    × (length line ≤ 63)
    × (256 < gathered + length line)

pub record IsSafe {W : Type 0} (s : System W) : Type 0 where
  pub fits : Fits s.shell
  pub placed : Placed s.writer s.shell
  pub within : Within s.reader s.repl.len s.taken

-- uart_read_bytes returns at most the size of its buffer.
abbrev pub Small : List Turn → Type 0
Small [] = Unit {0}
Small (shell chunk ∷ xs) = (length chunk ≤ 64) × Small xs
Small (lua ∷ xs) = Small xs

char_step-Fits : (i : ℕ) (s : Shell) → Fits s → Fits (char_step i s)
unfolding char_step hand_over quit copy_line
char_step-Fits i s f = grind (arith, length-set, length-overwrite)

module _ {W : Type 0} where
  writer_at-safe :
      (w : Writer) (chunk : List ℕ) (s : System W)
      → Fits s.shell
      → Placed w s.shell
      → length chunk ≤ 64
      → let t = writer_at w chunk s in
        Fits t.shell
        × Placed t.writer t.shell
        × (t.reader ≡ s.reader)
        × (t.repl.len ≡ s.repl.len)
        × (t.taken ≡ s.taken)
  unfolding writer_at quit
  writer_at-safe (scanning i len) chunk s f p h = ground (
    arith,
    char_step-Fits i s.shell f,
    length-set s.shell.buffer_input s.shell.index 0,
    length-overwrite chunk s.shell.buffer_input,
  )
  writer_at-safe (copying l k) chunk s f p h = grind (arith, length-set)
  writer_at-safe (recording l) chunk s f p h = ground arith
  writer_at-safe (publishing l) chunk s f p h = ground arith
  writer_at-safe (notifying l) chunk s f p h = ground arith

  module _ (L : Interpreter W) where
    handle-none : (line : List ℕ) (s : Repl W) → handle L s line ≡ none → 256 < s.len + length line
    unfolding handle append_line
    handle-none line s e = ground arith

    handle_step-IsSafe :
        (line : List ℕ) (s : System W) → IsSafe s → length line ≤ 63 → IsSafe (handle_step L line s)
    unfolding handle_step
    handle_step-IsSafe line s v h = elim (Option-cases (handle L s.repl line)) [
      | inl e ↦
          rw (e, handle_step)
            (record {
              fits = v.fits;
              placed = v.placed;
              within = (s.taken, line, refl, h, handle-none line s.repl e);
            })
      | inr (r, e) ↦ rw (e, handle_step) (ground arith)
    ]

    reader_at-IsSafe :
        (r : Reader) (s : System W)
        → r ≡ s.reader
        → IsSafe s
        → Within r s.repl.len s.taken
        → IsSafe (reader_at L r s)
    unfolding reader_at
    reader_at-IsSafe waiting s e v w = ground arith
    reader_at-IsSafe woken s e v w = ground arith
    reader_at-IsSafe (indexed idx) s e v w = ground arith
    reader_at-IsSafe (reading idx len got) s e v w =
        let next = get_or (perline s.shell idx) (length got) 0 in
        ground (arith, handle_step-IsSafe got s, length-append got (next ∷ []))
    reader_at-IsSafe stopped s e v w = v

    turn-IsSafe : (x : Turn) (s : System W) → Small (x ∷ []) → IsSafe s → IsSafe (turn L x s)
    unfolding turn
    turn-IsSafe (shell chunk) s h v = ground (arith, writer_at-safe s.writer chunk s)
    turn-IsSafe lua s h v = reader_at-IsSafe s.reader s refl v v.within

    -- From a safe state, where the UART delivers at most 64 bytes at a time, every order of the
    -- accesses of both tasks ends in a safe state: each index into buffer_input and buffer_perline
    -- stays in its buffer, each length is below 64, a line that is being handed over is written to
    -- the buffer that is not active, and the Lua task stands behind a write past buffer_multiline
    -- only if the last line taken, of at most 63 bytes, had no room behind the gathered text.
    pub run-IsSafe : (xs : List Turn) (s : System W) → Small xs → IsSafe s → IsSafe (run L xs s)
    unfolding run
    run-IsSafe [] s h v = v
    run-IsSafe (shell chunk ∷ xs) s h v =
        run-IsSafe xs (turn L (shell chunk) s) h.1 (turn-IsSafe (shell chunk) s (h.0, tt) v)
    run-IsSafe (lua ∷ xs) s h v = run-IsSafe xs (turn L lua s) h (turn-IsSafe lua s tt v)
