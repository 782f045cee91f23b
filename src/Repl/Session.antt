-- ===== src/Repl/Session.antt =====
-- `_HandleLuaCommand` (main/Core_Level.c) over several lines, and together with the shell task.
use mathlib.Core.List.{append_assoc, append-nil}
use mathlib.Core.Path.{subst₂}
use clios.Prelude.{
  ℕ, ◌+◌, ◌≤◌, ◌≡◌, refl, sym, ap, ◌∙◌, true, false, inl, inr, List, [], ◌∷◌, ◌++◌, Option, some,
  arith, length, Option-cases, take, length-append, length-take,
}
use clios.Shell.{Shell, shell_round}
use clios.Shell.Editor
use clios.Shell.Editor.{shell_round-IsValid}
use clios.Shell.Lines.{lines}
use clios.Shell.Handoff.{active_line, latest, shell_round-latest}
use clios.Repl.{
  Repl, Interpreter, loaded, refused, returned, failed, append_line, chunk, mentions,
  interrupt_hook, call_chunk, syntax_error, retry, refuse, evaluate, handle, end_line, reset,
  session, lua_task, append_bytes,
}
use clios.Repl.Buffer.{IsValid, append_line_lem}
use clios.Repl.Outcomes.{
  Keeps-chunk, Keeps-IsValid, append_line-rest, evaluate-failed, evaluate-incomplete,
  evaluate-returned, handle-some,
}

-- The lines as Lua gets them, each ended by a newline.
abbrev pub text : List (List ℕ) → List ℕ
text [] = []
text (line ∷ lines) = (line ++ 10 ∷ []) ++ text lines

length-active_line : (s : Shell) → Editor.IsValid s → length (active_line s) ≤ 63
length-active_line s v =
    ground (arith, length-take s.perline_len0 s.perline0, length-take s.perline_len1 s.perline1)

regroup : (c line more : List ℕ) → c ++ line ++ 10 ∷ [] ++ more ≡ c ++ (line ++ 10 ∷ [] ++ more)
regroup c line more = simp append_assoc

module _ {W : Type 0} (L : Interpreter W) where
  -- Lua calls the text `c`, extended by one line after the other, incomplete each time.
  abbrev pub Incomplete : W → List ℕ → List (List ℕ) → Type 0
  Incomplete w c [] = Unit {0}
  Incomplete w c (line ∷ lines) =
      ((err : Option (List ℕ)) × (L.loadbuffer w (c ++ line ++ 10 ∷ []) ≡ refused err)
        × (mentions "near <eof>" err ≡ true)
        × (mentions "expected" err ≡ true))
      × Incomplete w (c ++ line ++ 10 ∷ []) lines

  gather_line :
      (s : Repl W) (line : List ℕ) {err : Option (List ℕ)}
      → IsValid s
      → s.len + length line ≤ 254
      → L.loadbuffer s.lua (chunk s ++ line ++ 10 ∷ []) ≡ refused err
      → mentions "near <eof>" err ≡ true
      → mentions "expected" err ≡ true
      → (t : Repl W) × (handle L s line ≡ some t)
        × (chunk t ≡ chunk s ++ line ++ 10 ∷ [])
        × (t.len ≡ s.len + length line + 1)
        × (t.lua ≡ s.lua)
        × IsValid t
  gather_line s line v fit answer near expected =
      let (t, e, held, len, _, valid) = append_line_lem s v line fit in
      let lua = (append_line-rest s line e).0 in
      (
        t,
        handle-some L s line e
            ∙ ap some (evaluate-incomplete L t (cc (lua, held, answer)) near expected),
        held,
        len,
        lua,
        valid,
      )

  -- Lines that Lua calls incomplete are gathered: as long as they fit with their newlines, Lua is
  -- next given all of them, in order, after what the buffer held.
  pub session-gathers :
      (lines : List (List ℕ)) (s : Repl W)
      → IsValid s
      → s.len + length (text lines) ≤ 255
      → Incomplete s.lua (chunk s) lines
      → (t : Repl W) × (session L s lines ≡ some t)
        × (chunk t ≡ chunk s ++ text lines)
        × (t.len ≡ s.len + length (text lines))
        × IsValid t
  unfolding session
  session-gathers [] s v fit inc = (s, refl, sym (append-nil (chunk s)), omega arith, v)
  session-gathers (line ∷ more) s v fit inc =
      let size : length (text (line ∷ more)) ≡ length line + 1 + length (text more) =
        omega (arith, length-append (line ++ 10 ∷ []) (text more), length-append line (10 ∷ [])) in
      let (t, done, held, len, lua, valid) =
        gather_line s line v (omega (arith, size)) inc.0.1 inc.0.2 inc.0.3 in
      let (u, run, whole, total, good) =
        session-gathers more t valid (omega (arith, size, len))
          (subst₂ (λ w c. Incomplete w c more) (sym lua) (sym held) inc.1) in
      (
        u,
        rw (done, session) run,
        whole ∙ ap (λ c. c ++ text more) held ∙ regroup (chunk s) line (text more),
        omega (arith, size, len, total),
        good,
      )

  -- A chunk that fails at run time is run again, with the next line at its end.
  pub failed_chunk_runs_again :
      (s : Repl W) (line next : List ℕ)
      → IsValid s
      → s.len + length line + length next ≤ 253
      → L.loadbuffer s.lua (chunk s ++ line ++ 10 ∷ []) ≡ loaded
      → L.pcall s.lua (interrupt_hook s) (chunk s ++ line ++ 10 ∷ []) ≡ failed
      → (t u : Repl W) × (handle L s line ≡ some t)
        × (append_line t next ≡ some u)
        × (chunk u ≡ chunk s ++ line ++ 10 ∷ [] ++ next ++ 10 ∷ [])
  failed_chunk_runs_again s line next v fit l f =
      let (t, e, text, len, end, valid) = append_line_lem s v line (omega arith) in
      let rest = append_line-rest s line e in
      let load : L.loadbuffer t.lua (chunk t) ≡ loaded = cc (rest.0, text, l) in
      let call : L.pcall t.lua (interrupt_hook t) (chunk t) ≡ failed =
        cc (rest.0, rest.1, rest.2, text, f) in
      let keeps = evaluate-failed L t load call in
      let (u, e', held, _, _, _) =
        append_line_lem (evaluate L t) (Keeps-IsValid t (evaluate L t) keeps valid) next
          (omega (arith, keeps)) in
      (
        evaluate L t,
        u,
        handle-some L s line e,
        e',
        held ∙ ap (λ c. c ++ next ++ 10 ∷ []) (Keeps-chunk t (evaluate L t) keeps ∙ text),
      )

  evaluate-hook : (s : Repl W) → s.hook ≡ false → (evaluate L s).hook ≡ false
  unfolding evaluate call_chunk refuse retry syntax_error end_line reset
  evaluate-hook s h = ground arith

  append_line-hook :
      (s : Repl W) (line : List ℕ) {t : Repl W} → append_line s line ≡ some t → t.hook ≡ s.hook
  unfolding append_line end_line append_bytes
  append_line-hook s line e = ground arith

  handle-hook :
      (s : Repl W) (line : List ℕ) {t : Repl W}
      → s.hook ≡ false
      → handle L s line ≡ some t
      → t.hook ≡ false
  unfolding handle
  handle-hook s line {t} off h = elim (Option-cases (append_line s line)) [
    | inl e ↦ absurd (ground arith)
    | inr (u, e) ↦ cc (handle-some L s line e, h, evaluate-hook u (append_line-hook s line e ∙ off))
  ]

  session-hook :
      (lines : List (List ℕ)) (s : Repl W) {t : Repl W}
      → s.hook ≡ false
      → session L s lines ≡ some t
      → t.hook ≡ false
  unfolding session
  session-hook [] s {t} off h = cc
  session-hook (line ∷ more) s {t} off h = elim (Option-cases (handle L s line)) [
    | inl e ↦ absurd (ground arith)
    | inr (u, e) ↦ session-hook more u {t = t} (handle-hook s line off e) (ground arith)
  ]

  -- Once a chunk has run to its end, no later line installs the hook again: whatever is typed and
  -- whatever Lua answers, setting the flag interrupts nothing.
  pub interrupt_lost :
      (s : Repl W) (n : ℕ) (lines : List (List ℕ)) {t : Repl W}
      → L.loadbuffer s.lua (chunk s) ≡ loaded
      → L.pcall s.lua (interrupt_hook s) (chunk s) ≡ returned n
      → session L (evaluate L s) lines ≡ some t
      → interrupt_hook (record t { stop_flag = true }) ≡ false
  interrupt_lost s n lines {t} l c h =
      ground (arith, session-hook lines (evaluate L s) (evaluate-returned L s l c).2 h)

  -- A chunk of UART input that completes lines, the last of them `line`, and then the Lua task on an
  -- empty buffer: Lua is given `line` and a newline.
  lua_task_line :
      (input line : List ℕ) (shell : Shell) (s : Repl W)
      → Editor.IsValid shell
      → shell.index ≡ 0
      → length input ≤ 64
      → latest (active_line shell) (lines [] input) ≡ line
      → IsValid s
      → s.len ≡ 0
      → (t : Repl W) × (lua_task L (shell_round input shell) s ≡ some (evaluate L t))
        × (chunk t ≡ line ++ 10 ∷ [])
        × (t.lua ≡ s.lua)
  unfolding lua_task
  lua_task_line input line shell s vs idle short last v empty =
      let t = shell_round input shell in
      let found : active_line t ≡ line = (shell_round-latest input shell vs idle short).0 ∙ last in
      let (u, e, held, _, _, _) = append_line_lem s v line (
        omega
          (arith, ap length found, length-active_line t (shell_round-IsValid input shell vs))) in
      (
        u,
        ap (handle L s) found ∙ handle-some L s line e,
        held ∙ ap (λ n. take n s.multiline ++ line ++ 10 ∷ []) empty,
        (append_line-rest s line e).0,
      )
