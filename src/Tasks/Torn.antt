-- ===== src/Tasks/Torn.antt =====
-- Two lines that arrive while the Lua task copies an earlier one (main/Core_Level.c): the double
-- buffer has no place for the second of them.
use native.Mathlib.Nat.{suc-add}
use clios.Prelude.{
  ℕ, zero, suc, ◌+◌, ◌≤◌, ◌≡◌, refl, sym, ap, ◌∙◌, Bool, true, false, not, ◌&&◌, ltb, get_or, List,
  [], ◌∷◌, ◌++◌, arith, length, take, inl, inr, length-take, Bool-cases,
}
use clios.Shell.{Shell, is_eol, perline, perline_len, char_step, hand_over, quit, scan, shell_round}
use clios.Shell.Editor.{IsValid}
use clios.Shell.Lines.{lines}
use clios.Shell.Handoff.{active_line, latest, shell_round-latest}
use clios.Repl.{Interpreter}
use clios.Tasks.{scanning, reading, System, Turn, shell, lua, run}
use clios.Tasks.Handing.{run-append, writes, shell_turns}
use clios.Tasks.History.{handle_step-taken}
use clios.Tasks.Taking.{reads, copy_turns}
use clios.Tasks.Script.{inputs, inputs-exchange, inputs-reads}

-- After so many lines.
flipped : ℕ → Bool → Bool
flipped zero b = b
flipped (suc n) b = flipped n (not b)

-- Each notification goes with a change of active_index.
Flips : Shell → Shell → Type 0
Flips s t = (m : ℕ) × (t.notified ≡ s.notified + m) × (t.active_index ≡ flipped m s.active_index)

flipped-flipped : (m n : ℕ) (b : Bool) → flipped n (flipped m b) ≡ flipped (m + n) b
unfolding flipped
flipped-flipped zero n b = let e : n ≡ 0 + n = omega arith in ap (λ k. flipped k b) e
flipped-flipped (suc m) n b =
    flipped-flipped m n (not b) ∙ ap (λ k. flipped k b) (sym (suc-add m n))

char_step-Flips : (i : ℕ) (s : Shell) → Flips s (char_step i s)
unfolding Flips flipped char_step hand_over quit
char_step-Flips i s = elim (Bool-cases (is_eol (get_or s.buffer_input i 0) && ltb 0 s.index)) [
  | inl ends ↦ (1, ground arith, ground arith)
  | inr on ↦ (0, ground arith, ground arith)
]

scan-Flips : (k i : ℕ) (s : Shell) → Flips s (scan k i s)
unfolding scan Flips flipped
scan-Flips zero i s = (0, omega arith, refl)
scan-Flips (suc k) i s =
    let (m, count, swap) = char_step-Flips i s in
    let (n, more, again) = scan-Flips k (suc i) (char_step i s) in
    (m + n, omega arith, again ∙ ap (flipped n) swap ∙ flipped-flipped m n s.active_index)

round-Flips : (chunk : List ℕ) (s : Shell) → Flips s (shell_round chunk s)
unfolding shell_round Flips
round-Flips chunk s = scan-Flips (length chunk) 0 _

-- Two lines leave active_index as it was.
two_lines-active :
    (chunk l1 l2 : List ℕ) (s : Shell)
    → IsValid s
    → s.index ≡ 0
    → length chunk ≤ 64
    → lines [] chunk ≡ l1 ∷ l2 ∷ []
    → ((shell_round chunk s).active_index ≡ s.active_index)
      × (active_line (shell_round chunk s) ≡ l2)
unfolding Flips flipped
two_lines-active chunk l1 l2 s v idle short two =
    let (found, count) = shell_round-latest chunk s v idle short in
    let (m, more, swap) = round-Flips chunk s in
    let both : m ≡ 2 = omega (arith, ap (λ ls. length ls) two) in
    (
      swap ∙ ap (λ n. flipped n s.active_index) both ∙ twice s.active_index,
      found ∙ ap (latest (active_line s)) two,
    )
  where
    twice : (b : Bool) → flipped 2 b ≡ b
    twice true = refl
    twice false = refl

take-take : (n m : ℕ) (xs : List ℕ) → n ≤ m → take n (take m xs) ≡ take n xs
take-take zero m xs h = refl
take-take (suc n) zero xs h = elim h [ ]
take-take (suc n) (suc m) [] h = refl
take-take (suc n) (suc m) (x ∷ xs) h = ap (◌∷◌ x) (take-take n m xs (omega arith))

-- The bytes at the start of a line.
take-active :
    (n : ℕ) (s : Shell) {line : List ℕ}
    → active_line s ≡ line
    → n ≤ length line
    → take n (perline s s.active_index) ≡ take n line
take-active n s {line} e h =
    sym
      (take-take n (perline_len s s.active_index) (perline s s.active_index) (omega (arith, short)))
    ∙ ap (take n) e
  where
    short : length line ≤ perline_len s s.active_index
    short =
        omega (
          arith,
          ap length e,
          length-take (perline_len s s.active_index) (perline s s.active_index),
        )

module _ {W : Type 0} (L : Interpreter W) where
  -- With all buffers in order, the Lua task has loaded the length `n` of the active line and copied
  -- nothing of it yet, and the shell waits with no line pending: if a chunk then completes two lines,
  -- and the second has `n` bytes or more, there is an order of the accesses with this chunk as the
  -- only input in which the one line that the Lua task takes is the second line, cut to its first `n`
  -- bytes.
  pub torn_line :
      (chunk l1 l2 : List ℕ) (s : System W) (i n : ℕ)
      → IsValid s.shell
      → s.repl.stop_flag ≡ s.shell.stop_flag
      → s.shell.index ≡ 0
      → s.writer ≡ scanning i i
      → s.reader ≡ reading s.shell.active_index n []
      → length chunk ≤ 64
      → lines [] chunk ≡ l1 ∷ l2 ∷ []
      → n ≤ length l2
      → (turns : List Turn) × (inputs turns ≡ chunk ∷ [])
        × ((run L turns s).taken ≡ s.taken ++ take n l2 ∷ [])
  torn_line chunk l1 l2 s i n v f idle at busy short two fits =
      let (m, k, ran, count) = shell_turns L chunk i s at v f in
      let (same, found) = two_lines-active chunk l1 l2 s.shell v idle short two in
      let idx = s.shell.active_index in
      let u = shell_round chunk s.shell in
      let t : System W = record s {
        shell = u;
        writer = scanning (length chunk) (length chunk);
        pending = s.pending + k;
      } in
      let first : take n (perline u idx) ≡ take n l2 =
        ap (λ b. take n (perline u b)) (sym same) ∙ take-active n u found fits in
      (
        (shell chunk ∷ writes m) ++ (reads n ++ lua ∷ []),
        inputs-exchange chunk m (reads n ++ lua ∷ []) two
            ∙ ap (◌∷◌ chunk) (inputs-reads n (lua ∷ [])),
        ap (λ t. t.taken)
              (run-append L (shell chunk ∷ writes m) (reads n ++ lua ∷ []) s
                ∙ ap (run L (reads n ++ lua ∷ [])) (ran ∙ ap (λ r. record t { reader = r }) busy)
                ∙ copy_turns L t idx n (
                    omega
                      (arith, ap length first, length-take n l2, length-take n (perline u idx))))
            ∙ handle_step-taken L (take n (perline u idx)) t
            ∙ ap (λ l. s.taken ++ l ∷ []) first,
      )
