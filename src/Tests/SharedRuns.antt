-- ===== src/Tests/SharedRuns.antt =====
-- The two tasks of main/Core_Level.c side by side, with an interpreter to which every text is a
-- whole chunk with one result.
use clios.Prelude.{
  codes, ℕ, ◌+◌, ◌≡◌, refl, false, List, [], ◌∷◌, ◌++◌, Option, none, some, arith, replicate,
}
use clios.Shell
use clios.Shell.{Shell, shell_round}
use clios.Shell.Editor.{IsValid, init-IsValid}
use clios.Shell.Lines.{lines, pending}
use clios.Repl
use clios.Repl.{
  interrupt_hook, Repl, Interpreter, loaded, returned, handle, session, append_line, append_bytes,
  end_line, evaluate, call_chunk, reset,
}
use clios.Tasks.{System, reading, scanning, waiting, woken, Turn, shell, lua, run, turn}
use clios.Tasks.Bounds.{IsSafe, run-IsSafe}
use clios.Tasks.Handing.{writes, line_turns, shell_turns}
use clios.Tasks.Taking.{line_reads}
use clios.Tasks.Races.{begun, loaded_line_taken}
use clios.Tasks.Twice.{line_taken_twice}
use clios.Tasks.Torn.{torn_line}
use clios.Tasks.Interrupt.{never_interrupted}
use clios.Tasks.Script.{Idle, inputs, script_session}

abbrev calm : Interpreter ℕ
calm = record {
  loadbuffer = λ w c. loaded;
  pcall = λ w interrupted c. returned 1;
  after = λ w interrupted c. w + 1;
}

abbrev quiet : System ℕ
quiet = record {
  shell = Shell.init (replicate 64 0);
  writer = scanning 0 0;
  pending = 0;
  reader = waiting;
  repl = Repl.init 0;
  taken = [];
}

quiet-IsValid : IsValid quiet.shell
quiet-IsValid = init-IsValid (replicate 64 0) refl

quiet-flags : quiet.repl.stop_flag ≡ quiet.shell.stop_flag
unfolding Shell.init Repl.init
quiet-flags = refl

abbrev typed : List ℕ
typed = codes "x=1" ++ 10 ∷ []

shell_turns_example :
    (turns m : ℕ) × (run calm (shell typed ∷ writes turns) quiet ≡ record quiet {
      shell = shell_round typed quiet.shell;
      writer = scanning 4 4;
      pending = quiet.pending + m;
    })
    × ((shell_round typed quiet.shell).notified ≡ quiet.shell.notified + m)
shell_turns_example = shell_turns calm typed 0 quiet refl quiet-IsValid quiet-flags

run-IsSafe_example : IsSafe (run calm (shell typed ∷ lua ∷ shell [] ∷ lua ∷ writes 8) quiet)
unfolding Shell.init
run-IsSafe_example =
    run-IsSafe calm (shell typed ∷ lua ∷ shell [] ∷ lua ∷ writes 8) quiet (omega arith)
      (record { fits = omega arith; placed = omega arith; within = tt })

-- The byte that ends the line "x=1" is next, while the Lua task was woken for an earlier line.
abbrev late : System ℕ
late = record quiet {
  shell = record (Shell.init (replicate 64 0)) {
    buffer_input = typed ++ replicate 60 0;
    index = 3;
    perline0 = codes "y" ++ replicate 63 0;
    perline_len0 = 1;
  };
  writer = scanning 3 4;
  reader = woken;
}

late-IsValid : IsValid late.shell
unfolding Shell.init
late-IsValid = record {
  input_size = refl;
  index_below = omega arith;
  size0 = refl;
  size1 = refl;
  len0_below = omega arith;
  len1_below = omega arith;
  terminated0 = refl;
  terminated1 = refl;
}

line_taken_twice_example :
    (run calm (line_turns 3 ++ (line_reads 3 ++ lua ∷ line_reads 3)) late).taken
    ≡ codes "x=1" ∷ codes "x=1" ∷ []
unfolding Shell.init Repl.init handle append_line append_bytes end_line evaluate call_chunk reset
line_taken_twice_example =
    line_taken_twice calm late 3 4 {r = _} late-IsValid refl refl (omega arith) refl refl refl

-- The load comes first, then the shell's line, and then the rest of the copy.
loaded_line_taken_example :
    (rest : List (List ℕ)) × ((run calm (lua ∷ line_turns 3 ++ lua ∷ lua ∷ lua ∷ []) late).taken
      ≡ codes "y" ∷ rest)
unfolding Shell.init Repl.init begun turn
loaded_line_taken_example =
    loaded_line_taken calm (line_turns 3 ++ lua ∷ lua ∷ lua ∷ []) late 3 4 late-IsValid refl refl
      (omega arith) (omega arith)

abbrev script : List (List ℕ)
script = typed ∷ (codes "y" ++ 13 ∷ 10 ∷ []) ∷ []

script_lines : List (List ℕ)
script_lines = codes "x=1" ∷ codes "y" ∷ []

-- What the Lua task has become after the script.
script_end : Repl ℕ
unfolding script_lines session handle append_line append_bytes end_line evaluate call_chunk reset
    Repl.init
script_end = ended (session calm quiet.repl script_lines)
  where
    ended : Option (Repl ℕ) → Repl ℕ
    ended none = quiet.repl
    ended (some r) = r

quiet-Idle : Idle quiet
unfolding Shell.init
quiet-Idle = record {
  valid = quiet-IsValid;
  empty = refl;
  place = 0;
  at_read = refl;
  at_take = refl;
  same_flag = quiet-flags;
}

script_session_example :
    (turns : List Turn) × (inputs turns ≡ script)
    × ((run calm turns quiet).repl ≡ script_end)
    × ((run calm turns quiet).taken ≡ script_lines)
    × Idle (run calm turns quiet)
unfolding lines pending script_lines script_end session handle append_line append_bytes end_line
    evaluate call_chunk reset Repl.init
script_session_example =
    script_session calm script script_lines quiet quiet-Idle
      (refl, refl, omega arith, (refl, refl, omega arith, tt)) refl

-- The Lua task is about to copy the one byte of "y", when two lines arrive.
abbrev copying_y : System ℕ
copying_y = record late {
  shell = record late.shell { index = 0 };
  writer = scanning 0 0;
  reader = reading false 1 [];
}

copying_y-IsValid : IsValid copying_y.shell
unfolding Shell.init
copying_y-IsValid = record {
  input_size = refl;
  index_below = omega arith;
  size0 = refl;
  size1 = refl;
  len0_below = omega arith;
  len1_below = omega arith;
  terminated0 = refl;
  terminated1 = refl;
}

abbrev two_typed : List ℕ
two_typed = codes "a" ++ 10 ∷ codes "x=1" ++ 10 ∷ []

torn_line_example :
    (turns : List Turn) × (inputs turns ≡ two_typed ∷ [])
    × ((run calm turns copying_y).taken ≡ codes "x" ∷ [])
unfolding Shell.init Repl.init lines
torn_line_example =
    torn_line calm two_typed (codes "a") (codes "x=1") copying_y 0 1 copying_y-IsValid refl refl
      refl refl (omega arith) refl (omega arith)

never_interrupted_example :
    let t = run calm (shell typed ∷ lua ∷ writes 5) quiet in
    (t.shell.stop_flag ≡ false) × (interrupt_hook t.repl ≡ false)
unfolding Shell.init Repl.init
never_interrupted_example =
    never_interrupted calm (shell typed ∷ lua ∷ writes 5) quiet 0 0 refl refl refl
