-- ===== src/Tasks/Handing.antt =====
-- The shell's side of main/Core_Level.c: its single accesses, when nothing comes between them,
-- against the rounds of `Shell`.
use native.Mathlib.Nat.{suc-add}
use clios.Prelude.{
  ℕ, zero, suc, ◌+◌, ◌≤◌, ◌<◌, ◌≡◌, refl, sym, ap, ◌∙◌, true, false, not, inl, inr, Bool-cases,
  List, [], ◌∷◌, ◌++◌, arith, length, get_or, set, take, replicate, overwrite, length-set,
}
use clios.Shell.{
  Shell, perline, perline_len, set_perline, hand_over, quit, char_step, copy_line, scan,
  shell_round,
}
use clios.Shell.Editor.{IsValid, overwrite-IsValid, char_step-IsValid}
use clios.Shell.Handoff.{char_step-stop_flag}
use clios.Repl.{Interpreter}
use clios.Tasks.{Locals, scanning, copying, System, ends_line, begin_line, Turn, shell, turn, run}

-- So many accesses of the shell, with no input.
abbrev pub writes : ℕ → List Turn
writes n = replicate n (shell [])

-- One more byte of a memcpy.
set-overwrite-take :
    (k : ℕ) (xs ys : List ℕ)
    → k < length xs
    → set (overwrite (take k xs) ys) k (get_or xs k 0) ≡ overwrite (take (suc k) xs) ys
set-overwrite-take k [] ys h = elim h [ ]
set-overwrite-take zero (x ∷ xs) [] h = refl
set-overwrite-take zero (x ∷ xs) (y ∷ ys) h = refl
set-overwrite-take (suc k) (x ∷ xs) [] h = refl
set-overwrite-take (suc k) (x ∷ xs) (y ∷ ys) h =
    ap (◌∷◌ x) (set-overwrite-take k xs ys (omega arith))

-- The memcpy into the buffer `idx` after `k` bytes.
abbrev partly : Locals → ℕ → Shell → Shell
partly l k s =
    set_perline s l.next_index (overwrite (take k s.buffer_input) (perline s l.next_index))
      (perline_len s l.next_index)

replicate-add {ℓ} :
    {A : Type ℓ} (m n : ℕ) (a : A) → replicate (m + n) a ≡ replicate m a ++ replicate n a
replicate-add zero n a = ap (λ k. replicate k a) (omega arith)
replicate-add (suc m) n a = rw suc-add (ap (◌∷◌ a) (replicate-add m n a))

-- The accesses that hand over a line of so many bytes.
abbrev pub line_turns : ℕ → List Turn
line_turns n = shell [] ∷ writes n ++ writes 4

line_turns-writes : (n k : ℕ) → writes (suc n + 4 + k) ≡ line_turns n ++ writes k
line_turns-writes n k =
    replicate-add (suc n + 4) k (shell [])
    ∙ ap (λ xs. xs ++ writes k) (replicate-add (suc n) 4 (shell []))

module _ {W : Type 0} where
  abbrev after_bytes : System W → Locals → ℕ → System W
  after_bytes s l k = record s { shell = partly l k s.shell; writer = copying l k }

  -- The line is in its buffer, terminated and announced.
  abbrev pub handed : ℕ → ℕ → System W → System W
  handed i len s = record s {
    shell = char_step i s.shell;
    writer = scanning (suc i) len;
    pending = s.pending + 1;
  }

  module _ (L : Interpreter W) where
    pub run-append : (xs ys : List Turn) (s : System W) → run L (xs ++ ys) s ≡ run L ys (run L xs s)
    unfolding run
    run-append [] ys s = refl
    run-append (x ∷ xs) ys s = run-append xs ys (turn L x s)

    copy_byte :
        (s : System W) (l : Locals) (k : ℕ)
        → k < s.shell.index
        → k < length s.shell.buffer_input
        → turn L (shell []) (after_bytes s l k) ≡ after_bytes s l (suc k)
    unfolding turn
    copy_byte s l k h b = ground (
      arith,
      set-overwrite-take k s.shell.buffer_input s.shell.perline0,
      set-overwrite-take k s.shell.buffer_input s.shell.perline1,
    )

    copy_bytes :
        (s : System W) (l : Locals) (n k : ℕ)
        → n + k ≤ s.shell.index
        → n + k ≤ length s.shell.buffer_input
        → run L (writes n) (after_bytes s l k) ≡ after_bytes s l (n + k)
    unfolding run
    copy_bytes s l zero k h b = ap (after_bytes s l) (omega arith)
    copy_bytes s l (suc n) k h b =
        ap (run L (writes n)) (copy_byte s l k (omega arith) (omega arith))
        ∙ copy_bytes s l n (suc k) (omega arith) (omega arith)
        ∙ ap (after_bytes s l) (omega arith)

    module _ (i len : ℕ) (s : System W) (at_byte : s.writer ≡ scanning i len) (more : i < len)
        (v : IsValid s.shell) (same_flag : s.repl.stop_flag ≡ s.shell.stop_flag)
        (ends : ends_line i s ≡ true) where
      abbrev begun : System W
      begun = begin_line i len s

      abbrev locals : Locals
      locals = record {
        i = i;
        len = len;
        c = get_or s.shell.buffer_input i 0;
        next_index = not s.shell.active_index;
      }

      first : turn L (shell []) s ≡ after_bytes begun locals 0
      unfolding turn
      first = ground arith

      last : run L (writes 4) (after_bytes begun locals s.shell.index) ≡ handed i len s
      unfolding run char_step hand_over quit copy_line
      last = ground arith

      copied :
          run L (writes s.shell.index) (after_bytes begun locals 0)
          ≡ after_bytes begun locals (s.shell.index + 0)
      copied =
          copy_bytes begun locals s.shell.index 0 (ground (arith, v.index_below))
            (ground (arith, length-set s.shell.buffer_input s.shell.index 0))

      -- With the Lua task at rest, a line is handed over as `char_step` has it.
      pub hand_line : run L (line_turns s.shell.index) s ≡ handed i len s
      unfolding run
      hand_line =
          run-append (writes s.shell.index) (writes 4) (turn L (shell []) s)
          ∙ ap (λ t. run L (writes 4) (run L (writes s.shell.index) t)) first
          ∙ ap (run L (writes 4)) (copied ∙ ap (after_bytes begun locals) (omega arith))
          ∙ last

    -- A byte that ends no line is one access.
    byte_turn :
        (i len : ℕ) (s : System W)
        → s.writer ≡ scanning i len
        → i < len
        → ends_line i s ≡ false
        → turn L (shell []) s
          ≡ record s { shell = char_step i s.shell; writer = scanning (suc i) len }
    unfolding turn
    byte_turn i len s at more h = ground arith

    ends_line-notified :
        (i : ℕ) (s : System W)
        → ends_line i s ≡ true
        → (char_step i s.shell).notified ≡ s.shell.notified + 1
    unfolding char_step hand_over quit
    ends_line-notified i s h = ground arith

    char-notified :
        (i : ℕ) (s : System W)
        → ends_line i s ≡ false
        → (char_step i s.shell).notified ≡ s.shell.notified
    unfolding char_step
    char-notified i s h = ground arith

    -- The lines of the loop's last rounds, in the count of notifications.
    abbrev Handed : ℕ → ℕ → ℕ → System W → Type 0
    Handed k i len s =
        (turns m : ℕ) × (run L (writes turns) s ≡ record s {
          shell = scan k i s.shell;
          writer = scanning (k + i) len;
          pending = s.pending + m;
        })
        × ((scan k i s.shell).notified ≡ s.shell.notified + m)

    scan_turns :
        (k i len : ℕ) (s : System W)
        → s.writer ≡ scanning i len
        → k + i ≡ len
        → IsValid s.shell
        → s.repl.stop_flag ≡ s.shell.stop_flag
        → Handed k i len s
    unfolding scan run
    scan_turns zero i len s at e v f = (0, 0, ground arith, omega arith)
    scan_turns (suc k) i len s at e v f = elim (Bool-cases (ends_line i s)) [
      | inl ends ↦
          let (turns, m, r, n) =
            scan_turns k (suc i) len (handed i len s) refl (omega arith)
              (char_step-IsValid i s.shell v) (f ∙ sym (char_step-stop_flag i s.shell)) in
          (
            suc s.shell.index + 4 + turns,
            suc m,
            ap (λ xs. run L xs s) (line_turns-writes s.shell.index turns)
                ∙ run-append (line_turns s.shell.index) (writes turns) s
                ∙ ap (run L (writes turns)) (hand_line i len s at (omega arith) v f ends)
                ∙ r
                ∙ ground arith,
            omega (arith, ends_line-notified i s ends),
          )
      | inr on ↦
          let (turns, m, r, n) =
            scan_turns k (suc i) len
              (record s { shell = char_step i s.shell; writer = scanning (suc i) len }) refl
              (omega arith) (char_step-IsValid i s.shell v)
              (f ∙ sym (char_step-stop_flag i s.shell)) in
          (
            suc turns,
            m,
            ap (run L (writes turns)) (byte_turn i len s at (omega arith) on) ∙ r ∙ ground arith,
            omega (arith, char-notified i s on),
          )
    ]

    -- A chunk arrives when the shell waits for one, with all buffers in order and one value in both
    -- copies of the flag: in some number of turns that are all the shell's, its accesses have the
    -- effect of `shell_round` on the chunk, leave it waiting again, and raise the notification value by
    -- as many as `shell_round` counts.
    pub shell_turns :
        (chunk : List ℕ) (i : ℕ) (s : System W)
        → s.writer ≡ scanning i i
        → IsValid s.shell
        → s.repl.stop_flag ≡ s.shell.stop_flag
        → (turns m : ℕ) × (run L (shell chunk ∷ writes turns) s ≡ record s {
          shell = shell_round chunk s.shell;
          writer = scanning (length chunk) (length chunk);
          pending = s.pending + m;
        })
          × ((shell_round chunk s.shell).notified ≡ s.shell.notified + m)
    unfolding run turn shell_round
    shell_turns chunk i s at v f =
        let (turns, m, r, n) =
          scan_turns (length chunk) 0 (length chunk)
            (record s {
              shell = record s.shell { buffer_input = overwrite chunk s.shell.buffer_input };
              writer = scanning 0 (length chunk);
            })
            refl (omega arith) (overwrite-IsValid chunk s.shell v) f in
        (turns, m, ap (run L (writes turns)) (ground arith) ∙ r ∙ ground arith, n)
