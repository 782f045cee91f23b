-- ===== src/Tests/ShellRuns.antt =====
-- The shell task (main/Core_Level.c) on concrete input.
use clios.Prelude.{
  codes, ℕ, ◌+◌, ◌≡◌, refl, List, [], ◌∷◌, ◌++◌, map, arith, length, take, c_str, get_or, overwrite,
  ◌<◌, ◌%◌, replicate,
}
use clios.Shell.{Shell, init, shell_round, shell, scan, char_step}
use clios.Shell.Editor.{IsValid, init-IsValid, shell-IsValid}
use clios.Shell.Lines.{lines, pending, shell_round-lines}
use clios.Shell.Handoff.{active_line, latest, shell_round-latest}
use clios.Shell.Typed.{keys, typed_line}
use clios.Shell.Split.{split_chunk}

abbrev start : Shell
start = init (replicate 64 0)

start-IsValid : IsValid start
unfolding init
start-IsValid = init-IsValid (replicate 64 0) refl

-- "a=1" and "b" in one chunk, with a carriage return and two newlines.
abbrev two_lines : List ℕ
two_lines = codes "a=1" ++ 13 ∷ 10 ∷ codes "b" ++ 10 ∷ []

two_lines-lines : lines [] two_lines ≡ codes "a=1" ∷ codes "b" ∷ []
unfolding lines
two_lines-lines = refl

shell-IsValid_example : IsValid (shell (two_lines ∷ two_lines ∷ []) start)
shell-IsValid_example = shell-IsValid (two_lines ∷ two_lines ∷ []) start start-IsValid

shell_round-lines_example :
    let t = shell_round two_lines start in
    (t.console ≡ start.console ++ map c_str (lines [] two_lines))
    × (t.index ≡ length (pending [] two_lines))
    × (take t.index t.buffer_input ≡ pending [] two_lines)
unfolding init
shell_round-lines_example = shell_round-lines two_lines start refl refl (omega arith)

shell_round-latest_example :
    let t = shell_round two_lines start in
    (active_line t ≡ latest (active_line start) (lines [] two_lines))
    × (t.notified ≡ start.notified + length (lines [] two_lines))
unfolding init
shell_round-latest_example = shell_round-latest two_lines start start-IsValid refl (omega arith)

-- The bytes "ab" are pending.
abbrev busy : Shell
unfolding init
busy = record start { buffer_input = codes "ab" ++ replicate 62 0; index = 2 }

busy-IsValid : IsValid busy
unfolding init
busy-IsValid = record {
  input_size = refl;
  index_below = omega arith;
  size0 = refl;
  size1 = refl;
  len0_below = omega arith;
  len1_below = omega arith;
  terminated0 = refl;
  terminated1 = refl;
}

typed_line_example :
    let u = shell (keys (codes "ab") ++ (10 ∷ []) ∷ []) start in
    (u.console ≡ start.console ++ c_str (10 ∷ codes "b") ∷ []) × (active_line u ≡ 10 ∷ codes "b")
unfolding init
typed_line_example =
    typed_line b'a' (codes "b") start start-IsValid refl (refl, (refl, tt)) (omega arith)

-- A line "print(1)" and its newline, the first two bytes in a chunk of their own.
abbrev split_rest : List ℕ
split_rest = codes "int(1)" ++ 10 ∷ []

abbrev pr : Shell
unfolding init
pr = record start { buffer_input = codes "pr" ++ replicate 62 0; index = 2 }

pr-IsValid : IsValid pr
unfolding init
pr-IsValid = record {
  input_size = refl;
  index_below = omega arith;
  size0 = refl;
  size1 = refl;
  len0_below = omega arith;
  len1_below = omega arith;
  terminated0 = refl;
  terminated1 = refl;
}

split_chunk_example :
    let t = shell_round split_rest pr in
    (t.notified ≡ pr.notified)
    × (t.console ≡ pr.console)
    × (t.index ≡ 9)
    × ((j : ℕ)
        → j < t.index
        → get_or t.buffer_input j 0 ≡ get_or (overwrite split_rest pr.buffer_input) (j % 2) 0)
unfolding init
split_chunk_example =
    split_chunk split_rest pr pr-IsValid (omega arith) (omega arith) (refl, (refl, tt))

-- The newline is lost, and what is pending is "inininini".
split_chunk_run : take 9 (shell_round split_rest pr).buffer_input ≡ codes "inininini"
unfolding shell_round scan char_step pr
split_chunk_run = refl
