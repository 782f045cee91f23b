-- ===== src/Shell/Split.antt =====
-- `_ShellTask` (main/Core_Level.c) on a line that arrives in several chunks: the loop appends each
-- byte to the pending line in the very buffer from which it reads the chunk.
use native.Mathlib.Nat.{add-mod_left, mod-lt, mod-le, mod-eq_of_lt}
use mathlib.Core.Path.{subst}
use clios.Prelude.{
  ℕ, zero, suc, ◌+◌, ◌%◌, ◌≤◌, ◌<◌, ◌≡◌, refl, sym, ap, ◌∙◌, false, List, [], ◌∷◌, arith, length,
  get_or, set, take, overwrite, length-set, length-overwrite, get_or-set,
}
use clios.Shell.{Shell, is_eol, char_step, scan, shell_round}
use clios.Shell.Editor.{IsValid}
use clios.Shell.Typed.{Printable}

-- After `i` bytes, behind a pending line of `n` bytes: the buffer repeats the first `n` bytes of `buf`.
record Repeats (buf : List ℕ) (n i : ℕ) (s : Shell) : Type 0 where
  size : length s.buffer_input ≡ 64
  index_sum : s.index ≡ n + i
  periodic : (j : ℕ) → j < n + i → get_or s.buffer_input j 0 ≡ get_or buf (j % n) 0

-- The bytes of a chunk in the buffer.
get_or-Printable :
    (n k : ℕ) (chunk dst : List ℕ)
    → Printable (take n chunk)
    → k < n
    → k < length chunk
    → length chunk ≤ length dst
    → is_eol (get_or (overwrite chunk dst) k 0) ≡ false
get_or-Printable n k [] dst p h b f = elim b [ ]
get_or-Printable zero k (c ∷ cs) dst p h b f = elim h [ ]
get_or-Printable (suc n) zero (c ∷ cs) [] p h b f = elim f [ ]
get_or-Printable (suc n) zero (c ∷ cs) (d ∷ dst) p h b f = p.0
get_or-Printable (suc n) (suc k) (c ∷ cs) [] p h b f = elim f [ ]
get_or-Printable (suc n) (suc k) (c ∷ cs) (d ∷ dst) p h b f =
    get_or-Printable n k cs dst p.1 (omega arith) (omega arith) (omega arith)

module _ (buf : List ℕ) (n m : ℕ) (pending : 0 < n) (short : n + m ≤ 63)
    (printable : (k : ℕ) → k < n → k < m → is_eol (get_or buf k 0) ≡ false) where
  -- The byte at `i` is one that was read before, or is read for the first time; it ends no line.
  next_byte :
      (i : ℕ) (s : Shell)
      → Repeats buf n i s
      → i < m
      → (get_or s.buffer_input i 0 ≡ get_or buf (i % n) 0)
        × (is_eol (get_or s.buffer_input i 0) ≡ false)
  next_byte i s r h =
      let same = r.periodic i (omega arith) in
      (same, ap is_eol same ∙ printable (i % n) (mod-lt i pending) (omega (arith, mod-le i n)))

  -- The state after such a byte.
  abbrev appended : ℕ → Shell → Shell
  appended i s = record s {
    buffer_input = set s.buffer_input s.index (get_or s.buffer_input i 0);
    index = s.index + 1;
  }

  char_step-appended :
      (i : ℕ) (s : Shell) → Repeats buf n i s → i < m → char_step i s ≡ appended i s
  unfolding char_step
  char_step-appended i s r h = ground (arith, next_byte i s r h)

  appended-Repeats :
      (i : ℕ) (s : Shell) → Repeats buf n i s → i < m → Repeats buf n (suc i) (appended i s)
  appended-Repeats i s r h = record {
    size = length-set s.buffer_input s.index (get_or s.buffer_input i 0) ∙ r.size;
    index_sum = omega (arith, r.index_sum);
    periodic = λ j k. at j k;
  }
    where
      at : (j : ℕ) → j < n + suc i → get_or (appended i s).buffer_input j 0 ≡ get_or buf (j % n) 0
      at j k = ground (
        arith,
        get_or-set s.buffer_input s.index j (get_or s.buffer_input i 0) 0,
        next_byte i s r h,
        r.periodic j,
        add-mod_left n i,
      )

  -- The whole chunk was appended, and no line handed over.
  abbrev Ended : Shell → Shell → Type 0
  Ended s t = Repeats buf n m t × (t.notified ≡ s.notified) × (t.console ≡ s.console)

  scan-Repeats : (k i : ℕ) (s : Shell) → Repeats buf n i s → i + k ≡ m → Ended s (scan k i s)
  unfolding scan
  scan-Repeats zero i s r e = (subst (λ x. Repeats buf n x s) (omega arith) r, refl, refl)
  scan-Repeats (suc k) i s r e =
      subst (λ t. Ended s (scan k (suc i) t)) (sym (char_step-appended i s r (omega arith)))
        (scan-Repeats k (suc i) (appended i s) (appended-Repeats i s r (omega arith)) (omega arith))

-- A chunk of UART input behind a pending line of `n` bytes, with room for both in 63 bytes: if the
-- bytes of the chunk that stand in the first `n` places end no line, then the round hands over and
-- echoes no line at all, whatever the other bytes are. The pending line has grown by as many bytes as
-- the chunk has, and repeats the first `n` bytes of the buffer, as the chunk has left them, over and
-- over.
pub split_chunk :
    (chunk : List ℕ) (s : Shell)
    → IsValid s
    → 0 < s.index
    → s.index + length chunk ≤ 63
    → Printable (take s.index chunk)
    → let t = shell_round chunk s in
      (t.notified ≡ s.notified)
      × (t.console ≡ s.console)
      × (t.index ≡ s.index + length chunk)
      × ((j : ℕ)
          → j < t.index
          → get_or t.buffer_input j 0 ≡ get_or (overwrite chunk s.buffer_input) (j % s.index) 0)
unfolding shell_round
split_chunk chunk s v pending short p =
    let buf = overwrite chunk s.buffer_input in
    let start : Shell = record s { buffer_input = buf } in
    let (r, same, echoed) =
      scan-Repeats buf s.index (length chunk) pending short
        (λ k h b.
          get_or-Printable s.index k chunk s.buffer_input p h b (omega (arith, v.input_size)))
        (length chunk) 0 start
        (record {
          size = length-overwrite chunk s.buffer_input ∙ v.input_size;
          index_sum = omega arith;
          periodic = λ j h. ap (λ k. get_or buf k 0) (sym (mod-eq_of_lt (omega arith)));
        })
        (omega arith) in
    (same, echoed, r.index_sum, λ j h. r.periodic j (omega (arith, r.index_sum)))
