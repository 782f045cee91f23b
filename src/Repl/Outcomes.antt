-- ===== src/Repl/Outcomes.antt =====
-- `_HandleLuaCommand` (main/Core_Level.c): what remains of a line after Lua has answered.
use clios.Prelude.{
  ℕ, ◌+◌, ◌≡◌, refl, ap, ◌∙◌, true, false, inl, inr, List, Option, some, arith, length, take,
  Option-cases, ◌⊎◌,
}
use mathlib.Core.Path.{subst}
use mathlib.Core.Option
use clios.Repl.{
  Repl, Interpreter, Load, loaded, refused, returned, failed, append_line, append_bytes, chunk,
  mentions, interrupt_hook, call_chunk, syntax_error, retry, refuse, evaluate, handle, end_line,
  reset,
}
use clios.Repl.Buffer.{IsValid, append_line-IsValid, end_line-IsValid}

pub Load-cases : (l : Load) → (l ≡ loaded) ⊎ ((err : Option (List ℕ)) × (l ≡ refused err))
Load-cases loaded = inl refl
Load-cases (refused err) = inr (err, refl)

module _ {W : Type 0} (L : Interpreter W) where
  pub evaluate-loaded :
      (s : Repl W) → L.loadbuffer s.lua (chunk s) ≡ loaded → evaluate L s ≡ call_chunk L s
  unfolding evaluate
  evaluate-loaded s e = rw (e, evaluate)

  pub evaluate-refused :
      (s : Repl W) {err : Option (List ℕ)}
      → L.loadbuffer s.lua (chunk s) ≡ refused err
      → evaluate L s ≡ refuse L err s
  unfolding evaluate
  evaluate-refused s e = rw (e, evaluate)

  pub handle-some :
      (s : Repl W) (line : List ℕ) {t : Repl W}
      → append_line s line ≡ some t
      → handle L s line ≡ some (evaluate L t)
  unfolding handle
  handle-some s line e = ap (Option.map (evaluate L)) e

  call_chunk-IsValid : (s : Repl W) → IsValid s → IsValid (call_chunk L s)
  unfolding call_chunk reset
  call_chunk-IsValid s v = ground arith

  retry-IsValid : (s : Repl W) → IsValid s → IsValid (retry L s)
  unfolding retry syntax_error reset
  retry-IsValid s v = ground (arith, end_line-IsValid s v)

  refuse-IsValid : (err : Option (List ℕ)) (s : Repl W) → IsValid s → IsValid (refuse L err s)
  unfolding refuse syntax_error reset
  refuse-IsValid err s v = ground (arith, retry-IsValid s v)

  evaluate-IsValid : (s : Repl W) → IsValid s → IsValid (evaluate L s)
  unfolding evaluate
  evaluate-IsValid s v = elim (Load-cases (L.loadbuffer s.lua (chunk s))) [
    | inl e ↦ rw (evaluate-loaded s e) (call_chunk-IsValid s v)
    | inr (err, e) ↦ rw (evaluate-refused s e) (refuse-IsValid err s v)
  ]

  -- Whatever Lua answers to a line, the buffer keeps its size and the length stays an index of it.
  pub handle-IsValid :
      (s : Repl W) (line : List ℕ) {t : Repl W} → IsValid s → handle L s line ≡ some t → IsValid t
  unfolding handle
  handle-IsValid s line {t} v h = elim (Option-cases (append_line s line)) [
    | inl e ↦ absurd (ground arith)
    | inr (u, e) ↦
        let same : evaluate L u ≡ t = cc (handle-some s line e, h) in
        subst IsValid same (evaluate-IsValid u (append_line-IsValid s v line e))
  ]

-- The chunk stays in the buffer, to be extended by the next line.
abbrev pub Keeps : {W : Type 0} → Repl W → Repl W → Type 0
Keeps s t = (t.multiline ≡ s.multiline) × (t.len ≡ s.len) × (t.stack ≡ s.stack)

pub Keeps-chunk : {W : Type 0} (s t : Repl W) → Keeps s t → chunk t ≡ chunk s
Keeps-chunk s t k = λ i. take (k.1 i) (k.0 i)

pub Keeps-IsValid : {W : Type 0} (s t : Repl W) → Keeps s t → IsValid s → IsValid t
Keeps-IsValid s t k v = record {
  size = ap length k.0 ∙ v.size;
  len_below = omega (arith, k.1, v.len_below);
}

-- The copy of a line leaves the rest of the state alone.
pub append_line-rest :
    {W : Type 0} (s : Repl W) (line : List ℕ) {t : Repl W}
    → append_line s line ≡ some t
    → (t.lua ≡ s.lua) × (t.hook ≡ s.hook) × (t.stop_flag ≡ s.stop_flag) × (t.stack ≡ s.stack)
unfolding append_line append_bytes end_line
append_line-rest s line e = ground arith

module _ {W : Type 0} (L : Interpreter W) (s : Repl W) where
  -- A chunk that fails at run time is not taken out of the buffer.
  pub evaluate-failed :
      L.loadbuffer s.lua (chunk s) ≡ loaded
      → L.pcall s.lua (interrupt_hook s) (chunk s) ≡ failed
      → Keeps s (evaluate L s)
  unfolding call_chunk
  evaluate-failed e f = rw (evaluate-loaded L s e) (rw (f, call_chunk) (refl, refl, refl))

  -- So too a chunk that Lua calls incomplete.
  pub evaluate-incomplete :
      {err : Option (List ℕ)}
      → L.loadbuffer s.lua (chunk s) ≡ refused err
      → mentions "near <eof>" err ≡ true
      → mentions "expected" err ≡ true
      → evaluate L s ≡ s
  unfolding refuse
  evaluate-incomplete e near expected = evaluate-refused L s e ∙ rw (near, expected, refuse)

  -- A chunk that runs is taken out; its results stay on the Lua stack, and the hook is gone.
  pub evaluate-returned :
      {n : ℕ}
      → L.loadbuffer s.lua (chunk s) ≡ loaded
      → L.pcall s.lua (interrupt_hook s) (chunk s) ≡ returned n
      → let t = evaluate L s in
        (t.len ≡ 0) × (t.stack ≡ s.stack + n) × (t.hook ≡ false) × (t.stop_flag ≡ false)
  unfolding call_chunk reset
  evaluate-returned e f =
      rw (evaluate-loaded L s e) (rw (f, call_chunk, reset) (refl, refl, refl, refl))

  -- A syntax error that is not about the end of the chunk empties the buffer.
  pub evaluate-syntax_error :
      {err : Option (List ℕ)}
      → L.loadbuffer s.lua (chunk s) ≡ refused err
      → mentions "near <eof>" err ≡ false
      → let t = evaluate L s in (t.len ≡ 0) × (t.stack ≡ s.stack) × (t.hook ≡ false)
  unfolding refuse syntax_error reset
  evaluate-syntax_error e far = rw (evaluate-refused L s e) (rw (far, refuse) (refl, refl, refl))
