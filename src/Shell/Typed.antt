-- ===== src/Shell/Typed.antt =====
-- `_ShellTask` (main/Core_Level.c) at a keyboard: each byte arrives in a chunk of its own, and
-- uart_read_bytes stores it at the start of the buffer that also holds the pending line.
use mathlib.Core.Path.{subst}
use mathlib.Core.List.{append_assoc, append-nil}
use clios.Prelude.{
  ℕ, suc, ◌+◌, ◌≤◌, ◌<◌, ◌≡◌, refl, sym, ap, ◌∙◌, false, List, [], ◌∷◌, ◌++◌, map, arith, length,
  get_or, set, take, drop, c_str, length-set, length-append, take-set-suc,
}
use clios.Shell.{Shell, quit, is_eol, hand_over, char_step, scan, shell_round, shell}
use clios.Shell.Editor.{IsValid, shell_round-IsValid}
use clios.Shell.Handoff.{active_line, hand_over_isolated, quit-active_line}
use clios.Shell.Lines.{quit-console, c_str-prefix}

-- Each byte in a chunk of its own.
abbrev pub keys : List ℕ → List (List ℕ)
keys = map (λ c. c ∷ [])

abbrev pub Printable : List ℕ → Type 0
Printable [] = Unit {0}
Printable (c ∷ cs) = (is_eol c ≡ false) × Printable cs

-- A byte was typed, and then `cs`: these stand behind the first byte of the buffer.
record Typed (s : Shell) (first : ℕ) (cs tail : List ℕ) : Type 0 where
  holds : s.buffer_input ≡ first ∷ tail
  size : length tail ≡ 63
  index_length : s.index ≡ suc (length cs)
  behind : take (length cs) tail ≡ cs

key-Typed :
    (s : Shell) (first c : ℕ) (cs tail : List ℕ)
    → Typed s first cs tail
    → is_eol c ≡ false
    → length cs < 62
    → Typed (shell_round (c ∷ []) s) c (cs ++ c ∷ []) (set tail (length cs) c)
unfolding shell_round scan char_step
key-Typed s first c cs tail t p h = ground (
  arith,
  t.holds,
  length-append cs (c ∷ []),
  length-set tail (length cs) c,
  take-set-suc tail (length cs) c,
)

cons_of_length : (buf : List ℕ) {n : ℕ} → length buf ≡ suc n → buf ≡ get_or buf 0 0 ∷ drop 1 buf
cons_of_length [] e = absurd (omega arith)
cons_of_length (x ∷ buf) e = refl

first_key :
    (s : Shell) (c : ℕ)
    → length s.buffer_input ≡ 64
    → s.index ≡ 0
    → is_eol c ≡ false
    → Typed (shell_round (c ∷ []) s) c [] (drop 1 s.buffer_input)
unfolding shell_round scan char_step
first_key s c size idle p = ground (arith, cons_of_length s.buffer_input size)

first_key-console :
    (s : Shell) (c : ℕ)
    → length s.buffer_input ≡ 64
    → s.index ≡ 0
    → is_eol c ≡ false
    → (shell_round (c ∷ []) s).console ≡ s.console
unfolding shell_round scan char_step
first_key-console s c size idle p = ground (arith, cons_of_length s.buffer_input size)

key-console :
    (s : Shell) (first c : ℕ) (cs tail : List ℕ)
    → Typed s first cs tail
    → is_eol c ≡ false
    → (shell_round (c ∷ []) s).console ≡ s.console
unfolding shell_round scan char_step
key-console s first c cs tail t p = ground (arith, t.holds)

-- The end of the line overwrites the first byte before the line is handed over.
module _ (s : Shell) (first : ℕ) (cs tail : List ℕ) (t : Typed s first cs tail)
    (h : length cs ≤ 62) where
  entered : Shell
  entered = record s { buffer_input = 10 ∷ tail }

  enter-step : shell_round (10 ∷ []) s ≡ quit 10 (hand_over entered)
  unfolding shell_round scan char_step entered
  enter-step = ground (arith, t.holds)

  enter-console : (shell_round (10 ∷ []) s).console ≡ s.console ++ c_str (10 ∷ cs) ∷ []
  unfolding hand_over entered
  enter-console =
      ap (λ u. u.console) enter-step
      ∙ quit-console 10 (hand_over entered)
      ∙ ground (arith, c_str-prefix tail cs)

  enter-active : IsValid s → active_line (shell_round (10 ∷ []) s) ≡ 10 ∷ cs
  unfolding entered
  enter-active v =
      ap active_line enter-step
      ∙ quit-active_line 10 (hand_over entered)
      ∙ (hand_over_isolated entered valid).1
      ∙ ground arith
    where
      valid : IsValid entered
      valid = record {
        input_size = omega arith;
        index_below = v.index_below;
        size0 = v.size0;
        size1 = v.size1;
        len0_below = v.len0_below;
        len1_below = v.len1_below;
        terminated0 = v.terminated0;
        terminated1 = v.terminated1;
      }

abbrev Received : Shell → Shell → List ℕ → Type 0
Received s u line = (u.console ≡ s.console ++ c_str line ∷ []) × (active_line u ≡ line)

Typed-Received :
    (ds : List ℕ) (s : Shell) (first : ℕ) (cs tail : List ℕ)
    → IsValid s
    → Typed s first cs tail
    → Printable ds
    → length cs + length ds ≤ 62
    → Received s (shell (keys ds ++ (10 ∷ []) ∷ []) s) (10 ∷ cs ++ ds)
unfolding shell
Typed-Received [] s first cs tail v t p h =
    subst (λ l. Received s (shell_round (10 ∷ []) s) (10 ∷ l)) (sym (append-nil cs))
      (
        enter-console s first cs tail t (omega arith),
        enter-active s first cs tail t (omega arith) v,
      )
Typed-Received (d ∷ ds) s first cs tail v t p h =
    let (echoed, handed) =
      Typed-Received ds (shell_round (d ∷ []) s) d (cs ++ d ∷ []) (set tail (length cs) d)
        (shell_round-IsValid (d ∷ []) s v) (key-Typed s first d cs tail t p.0 (omega arith)) p.1
        (omega (arith, length-append cs (d ∷ []))) in
    (echoed ∙ rw (key-console s first d cs tail t p.0, append_assoc), handed ∙ rw append_assoc)

-- A line of 1 to 63 characters that is typed at a keyboard, one byte to a chunk, and ended by a
-- newline, is echoed and handed to the Lua task with the newline in place of its first character.
pub typed_line :
    (c : ℕ) (cs : List ℕ) (s : Shell)
    → IsValid s
    → s.index ≡ 0
    → Printable (c ∷ cs)
    → length cs ≤ 62
    → let u = shell (keys (c ∷ cs) ++ (10 ∷ []) ∷ []) s in
      (u.console ≡ s.console ++ c_str (10 ∷ cs) ∷ []) × (active_line u ≡ 10 ∷ cs)
unfolding shell
typed_line c cs s v idle p h =
    let (echoed, handed) =
      Typed-Received cs (shell_round (c ∷ []) s) c [] (drop 1 s.buffer_input)
        (shell_round-IsValid (c ∷ []) s v) (first_key s c v.input_size idle p.0) p.1
        (omega arith) in
    (
      echoed ∙ ap (λ l. l ++ c_str (10 ∷ cs) ∷ []) (first_key-console s c v.input_size idle p.0),
      handed,
    )
