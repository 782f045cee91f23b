-- ===== src/Tests/ReplRuns.antt =====
-- The Lua task (main/Core_Level.c) with an interpreter that calls a text incomplete if it begins
-- with `f`, and fails at run time on one that begins with `b`.
use clios.Prelude.{
  codes, ℕ, ◌+◌, ◌≡◌, refl, true, false, List, [], ◌∷◌, ◌++◌, Option, none, some, arith, length,
  replicate, ◌==◌, if◌then◌else◌,
}
use clios.Repl.{
  Repl, Interpreter, Load, loaded, refused, Call, returned, failed, init, chunk, append_line,
  append_bytes, end_line, reset, call_chunk, refuse, strstr, handle, session, evaluate, mentions,
  interrupt_hook,
}
use clios.Repl.Buffer.{IsValid}
use clios.Repl.Outcomes.{}
use clios.Repl.Session.{text, session-gathers, failed_chunk_runs_again, interrupt_lost}

abbrev answer : List ℕ → Load
answer [] = loaded
answer (c ∷ s) = if c == b'f' then refused (some (codes "'end' expected near <eof>")) else loaded

abbrev result : List ℕ → Call
result [] = returned 0
result (c ∷ s) = if c == b'b' then failed else returned 1

abbrev toy : Interpreter ℕ
toy = record {
  loadbuffer = λ w c. answer c;
  pcall = λ w interrupted c. result c;
  after = λ w interrupted c. w + 1;
}

abbrev fresh : Repl ℕ
fresh = init 0

fresh-IsValid : IsValid fresh
unfolding init
fresh-IsValid = record { size = refl; len_below = omega arith }

abbrev program : List (List ℕ)
program = codes "for i=1,2 do" ∷ codes "print(i)" ∷ []

-- 250 bytes are gathered already.
abbrev full : Repl ℕ
full = record {
  lua = 0;
  multiline = replicate 256 b'x';
  len = 250;
  stop_flag = false;
  hook = true;
  stack = 0;
}

full-IsValid : IsValid full
full-IsValid = record { size = refl; len_below = omega arith }

session-gathers_example :
    (t : Repl ℕ) × (session toy fresh program ≡ some t)
    × (chunk t ≡ chunk fresh ++ text program)
    × (t.len ≡ fresh.len + length (text program))
    × IsValid t
unfolding init mentions
session-gathers_example = session-gathers toy program fresh fresh-IsValid (omega arith) (
  (some (codes "'end' expected near <eof>"), refl, refl, refl),
  ((some (codes "'end' expected near <eof>"), refl, refl, refl), tt),
)

failed_chunk_runs_again_example :
    (t u : Repl ℕ) × (handle toy fresh (codes "boom()") ≡ some t)
    × (append_line t (codes "x=1") ≡ some u)
    × (chunk u ≡ chunk fresh ++ codes "boom()" ++ 10 ∷ [] ++ codes "x=1" ++ 10 ∷ [])
unfolding init
failed_chunk_runs_again_example =
    failed_chunk_runs_again toy fresh (codes "boom()") (codes "x=1") fresh-IsValid (omega arith)
      refl refl

-- After "x=1" has run, the lines of an incomplete program are gathered without the hook.
abbrev ran : Repl ℕ
unfolding append_line
ran = end_line (append_bytes fresh (codes "x=1"))

ran_program : Repl ℕ
unfolding init append_line evaluate end_line append_bytes reset call_chunk
ran_program = run (handle toy (evaluate toy ran) (codes "for"))
  where
    run : Option (Repl ℕ) → Repl ℕ
    run none = fresh
    run (some t) = t

interrupt_lost_example : interrupt_hook (record ran_program { stop_flag = true }) ≡ false
unfolding ran_program session handle evaluate init end_line append_bytes append_line reset
    call_chunk refuse mentions strstr
interrupt_lost_example =
    interrupt_lost toy ran 1 (codes "for" ∷ []) {t = ran_program} refl refl refl
