-- ===== src/Tasks/Script.antt =====
-- A script that is typed line by line, from the UART to Lua: both tasks of main/Core_Level.c, where
-- each line comes when the Lua task is ready for it.
use mathlib.Core.List.{append_assoc}
use mathlib.Core.Path.{subst}
use clios.Prelude.{
  ℕ, zero, suc, ◌+◌, ◌≤◌, ◌≡◌, refl, sym, ap, ◌∙◌, List, [], ◌∷◌, ◌++◌, some, arith, length,
  append-nil, Option-cases, inl, inr,
}
use clios.Shell.{shell_round, perline_len}
use clios.Shell.Editor.{IsValid, shell_round-IsValid}
use clios.Shell.Lines.{lines, pending, shell_round-lines}
use clios.Shell.Handoff.{active_line, latest, shell_round-latest}
use clios.Repl.{Interpreter, Repl, handle, session, lua_task}
use clios.Tasks.{scanning, waiting, System, Turn, shell, lua, run}
use clios.Tasks.Handing.{run-append, writes, shell_turns}
use clios.Tasks.Taking.{reads, line_reads, lua_turns, flag-IsValid}

-- Each chunk completes one of the lines, and no more bytes come with it.
abbrev pub Completes : List (List ℕ) → List (List ℕ) → Type 0
Completes [] [] = Unit {0}
Completes [] (line ∷ ls) = ⊥
Completes (chunk ∷ chunks) [] = ⊥
Completes (chunk ∷ chunks) (line ∷ ls) =
    (lines [] chunk ≡ line ∷ [])
    × (pending [] chunk ≡ [])
    × (length chunk ≤ 64)
    × Completes chunks ls

-- The bytes that the UART delivers in these turns, chunk by chunk.
abbrev pub inputs : List Turn → List (List ℕ)
inputs [] = []
inputs (shell [] ∷ xs) = inputs xs
inputs (shell (c ∷ cs) ∷ xs) = (c ∷ cs) ∷ inputs xs
inputs (lua ∷ xs) = inputs xs

inputs-append : (xs ys : List Turn) → inputs (xs ++ ys) ≡ inputs xs ++ inputs ys
inputs-append [] ys = refl
inputs-append (shell [] ∷ xs) ys = inputs-append xs ys
inputs-append (shell (c ∷ cs) ∷ xs) ys = ap (◌∷◌ (c ∷ cs)) (inputs-append xs ys)
inputs-append (lua ∷ xs) ys = inputs-append xs ys

inputs-writes : (n : ℕ) → inputs (writes n) ≡ []
inputs-writes zero = refl
inputs-writes (suc n) = inputs-writes n

pub inputs-reads : (n : ℕ) (xs : List Turn) → inputs (reads n ++ xs) ≡ inputs xs
inputs-reads zero xs = refl
inputs-reads (suc n) xs = inputs-reads n xs

inputs-chunk :
    (chunk : List ℕ) (xs : List Turn) {line : List ℕ} {ls : List (List ℕ)}
    → lines [] chunk ≡ line ∷ ls
    → inputs (shell chunk ∷ xs) ≡ chunk ∷ inputs xs
unfolding lines
inputs-chunk [] xs e = cc
inputs-chunk (c ∷ cs) xs e = refl

-- A chunk that completes a line, and then turns of the shell without input.
pub inputs-exchange :
    (chunk : List ℕ) (m : ℕ) (xs : List Turn) {line : List ℕ} {ls : List (List ℕ)}
    → lines [] chunk ≡ line ∷ ls
    → inputs ((shell chunk ∷ writes m) ++ xs) ≡ chunk ∷ inputs xs
inputs-exchange chunk m xs e =
    inputs-append (shell chunk ∷ writes m) xs
    ∙ ap (λ ys. ys ++ inputs xs) (inputs-chunk chunk (writes m) e)
    ∙ ap (λ ys. (chunk ∷ ys) ++ inputs xs) (inputs-writes m)

-- Both tasks wait for input, and no line is pending.
pub record Idle {W : Type 0} (s : System W) : Type 0 where
  pub valid : IsValid s.shell
  pub empty : s.shell.index ≡ 0
  pub place : ℕ
  pub at_read : s.writer ≡ scanning place place
  pub at_take : s.reader ≡ waiting
  pub same_flag : s.repl.stop_flag ≡ s.shell.stop_flag

module _ {W : Type 0} (L : Interpreter W) where
  -- One line, and what the Lua task does with it.
  abbrev after_line : List ℕ → List ℕ → System W → Repl W → System W
  after_line chunk line s r = record s {
    shell = record (shell_round chunk s.shell) { stop_flag = r.stop_flag };
    writer = scanning (length chunk) (length chunk);
    pending = 0;
    repl = r;
    taken = s.taken ++ line ∷ [];
  }

  round_line :
      (chunk line : List ℕ) (s : System W)
      → Idle s
      → lines [] chunk ≡ line ∷ []
      → length chunk ≤ 64
      → (active_line (shell_round chunk s.shell) ≡ line)
        × ((shell_round chunk s.shell).notified ≡ s.shell.notified + 1)
  round_line chunk line s o e h =
      let (found, count) = shell_round-latest chunk s.shell o.valid o.empty h in
      (
        found ∙ ap (latest (active_line s.shell)) e,
        count ∙ ap (λ ls. s.shell.notified + length ls) e,
      )

  line_turns :
      (chunk line : List ℕ) (s : System W) {r : Repl W}
      → Idle s
      → lines [] chunk ≡ line ∷ []
      → length chunk ≤ 64
      → handle L s.repl line ≡ some r
      → (turns : List Turn) × (inputs turns ≡ chunk ∷ [])
        × (run L turns s ≡ after_line chunk line s r)
  unfolding lua_task
  line_turns chunk line s {r} o e h k =
      let (m, n, ran, count) = shell_turns L chunk o.place s o.at_read o.valid o.same_flag in
      let (found, more) = round_line chunk line s o e h in
      let len = perline_len (shell_round chunk s.shell) (shell_round chunk s.shell).active_index in
      let t : System W = record s {
        shell = shell_round chunk s.shell;
        writer = scanning (length chunk) (length chunk);
        pending = s.pending + n;
      } in
      (
        (shell chunk ∷ writes m) ++ lua ∷ line_reads len,
        inputs-exchange chunk m (lua ∷ line_reads len) e
            ∙ ap (◌∷◌ chunk) (inputs-reads len (lua ∷ [])),
        run-append L (shell chunk ∷ writes m) (lua ∷ line_reads len) s
            ∙ ap (run L (lua ∷ line_reads len)) ran
            ∙ lua_turns L t (shell_round-IsValid chunk s.shell o.valid) o.at_take (omega arith)
                (ap (handle L s.repl) found ∙ k)
            ∙ ap (λ l. after_line chunk l s r) found,
      )

  after_line-Idle :
      (chunk line : List ℕ) (s : System W) (r : Repl W)
      → Idle s
      → pending [] chunk ≡ []
      → length chunk ≤ 64
      → Idle (after_line chunk line s r)
  after_line-Idle chunk line s r o e h = record {
    valid =
        flag-IsValid r.stop_flag (shell_round chunk s.shell)
          (shell_round-IsValid chunk s.shell o.valid);
    empty = (shell_round-lines chunk s.shell o.valid.input_size o.empty h).1 ∙ ap (λ l. length l) e;
    place = length chunk;
    at_read = refl;
    at_take = o.at_take;
    same_flag = refl;
  }

  -- What the rest of the script leaves, after one line.
  Runs : List (List ℕ) → List (List ℕ) → System W → Repl W → Type 0
  Runs chunks ls s r =
      (turns : List Turn) × (inputs turns ≡ chunks)
      × ((run L turns s).repl ≡ r)
      × ((run L turns s).taken ≡ s.taken ++ ls)
      × Idle (run L turns s)

  join :
      (chunk line : List ℕ) (chunks ls : List (List ℕ)) (s : System W) (u r : Repl W)
      → (turns : List Turn) × (inputs turns ≡ chunk ∷ [])
        × (run L turns s ≡ after_line chunk line s u)
      → Runs chunks ls (after_line chunk line s u) r
      → Runs (chunk ∷ chunks) (line ∷ ls) s r
  unfolding Runs
  join chunk line chunks ls s u r (xs, e, f) (ys, g, same, more, idle) =
      let both = run-append L xs ys s ∙ ap (run L ys) f in
      (
        xs ++ ys,
        inputs-append xs ys ∙ ap (λ cs. cs ++ inputs ys) e ∙ ap (◌∷◌ chunk) g,
        ap (λ t. t.repl) both ∙ same,
        ap (λ t. t.taken) both ∙ more ∙ append_assoc s.taken (line ∷ []) ls,
        subst Idle (sym both) idle,
      )

  session-cons :
      (s u : Repl W) (line : List ℕ) (ls : List (List ℕ)) {r : Repl W}
      → handle L s line ≡ some u
      → session L s (line ∷ ls) ≡ some r
      → session L u ls ≡ some r
  unfolding session
  session-cons s u line ls k e = ground arith

  -- Both tasks wait, with no line pending, the buffers in order and one value in both copies of the
  -- flag. If each of the chunks that the UART delivers, of at most 64 bytes, completes one line and
  -- begins no other, and `session` on these lines writes nothing past its buffer, then there is an
  -- order of the accesses with exactly these inputs in which the Lua task takes exactly these lines,
  -- each once and in order, and ends in the state of `session` on them, and both tasks wait again.
  pub script_session :
      (chunks ls : List (List ℕ)) (s : System W) {r : Repl W}
      → Idle s
      → Completes chunks ls
      → session L s.repl ls ≡ some r
      → (turns : List Turn) × (inputs turns ≡ chunks)
        × ((run L turns s).repl ≡ r)
        × ((run L turns s).taken ≡ s.taken ++ ls)
        × Idle (run L turns s)
  unfolding session run Runs
  script_session [] [] s o c e = ([], refl, ground arith, sym (append-nil s.taken), o)
  script_session [] (line ∷ ls) s o c e = absurd c
  script_session (chunk ∷ chunks) [] s o c e = absurd c
  script_session (chunk ∷ chunks) (line ∷ ls) s o (one, whole, fits, others) e =
      elim (Option-cases (handle L s.repl line)) [
        | inl undefined ↦ cc
        | inr (u, k) ↦ join chunk line chunks ls s u _ (line_turns chunk line s o one fits k) (
            script_session chunks ls (after_line chunk line s u)
              (after_line-Idle chunk line s u o whole fits) others
              (session-cons s.repl u line ls k e))
      ]
