-- ===== src/Tasks/Taking.antt =====
-- The Lua task's side of main/Core_Level.c: its single accesses to the double buffer, when nothing
-- comes between them, against a round of `Repl`.
use clios.Prelude.{
  ℕ, zero, suc, ◌+◌, ◌≤◌, ◌<◌, ◌≡◌, refl, ap, ◌∙◌, Bool, List, [], ◌∷◌, ◌++◌, some, arith, length,
  get_or, take, replicate, length-take,
}
use clios.Shell.{Shell, perline, perline_len}
use clios.Shell.Editor.{IsValid}
use clios.Shell.Handoff.{active_line}
use clios.Repl.{Interpreter, Repl, lua_task}
use clios.Tasks.{waiting, woken, reading, System, handle_step, Turn, lua, turn, run}
use clios.Tasks.Handing.{run-append}

-- So many accesses of the Lua task.
abbrev pub reads : ℕ → List Turn
reads n = replicate n lua

-- The accesses that take a line of so many bytes, from the load of active_index on.
abbrev pub line_reads : ℕ → List Turn
line_reads n = lua ∷ lua ∷ reads n ++ lua ∷ []

-- One more byte of a memcpy.
pub take-suc :
    (k : ℕ) (xs : List ℕ) → k < length xs → take k xs ++ get_or xs k 0 ∷ [] ≡ take (suc k) xs
take-suc k [] h = elim h [ ]
take-suc zero (x ∷ xs) h = refl
take-suc (suc k) (x ∷ xs) h = ap (◌∷◌ x) (take-suc k xs (omega arith))

-- Both buffers have room for the line that they hold.
pub perline-fits : (s : Shell) (idx : Bool) → IsValid s → perline_len s idx ≤ length (perline s idx)
perline-fits s idx v = ground arith

pub flag-IsValid : (b : Bool) (s : Shell) → IsValid s → IsValid (record s { stop_flag = b })
flag-IsValid b s v = ground arith

module _ {W : Type 0} (L : Interpreter W) where
  -- The memcpy of `len` bytes of the buffer `idx`, after `k` of them.
  abbrev pub copied : System W → Bool → ℕ → ℕ → System W
  copied s idx len k = record s { reader = reading idx len (take k (perline s.shell idx)) }

  read_byte :
      (s : System W) (idx : Bool) (len k : ℕ)
      → len ≤ length (perline s.shell idx)
      → k < len
      → turn L lua (copied s idx len k) ≡ copied s idx len (suc k)
  unfolding turn
  read_byte s idx len k fits h =
      ground (arith, length-take k (perline s.shell idx), take-suc k (perline s.shell idx))

  read_bytes :
      (s : System W) (idx : Bool) (len n k : ℕ)
      → len ≤ length (perline s.shell idx)
      → n + k ≤ len
      → run L (reads n) (copied s idx len k) ≡ copied s idx len (n + k)
  unfolding run
  read_bytes s idx len zero k fits h = ap (copied s idx len) (omega arith)
  read_bytes s idx len (suc n) k fits h =
      ap (run L (reads n)) (read_byte s idx len k fits (omega arith))
      ∙ read_bytes s idx len n (suc k) fits (omega arith)
      ∙ ap (copied s idx len) (omega arith)

  -- The end of the memcpy.
  read_end :
      (s : System W) (idx : Bool) (len : ℕ)
      → len ≤ length (perline s.shell idx)
      → turn L lua (copied s idx len len) ≡ handle_step L (take len (perline s.shell idx)) s
  unfolding turn handle_step
  read_end s idx len fits = ground (arith, length-take len (perline s.shell idx))

  -- The rest of the Lua task's turns for a line, when it has loaded the length.
  pub copy_turns :
      (s : System W) (idx : Bool) (len : ℕ)
      → len ≤ length (perline s.shell idx)
      → run L (reads len ++ lua ∷ []) (copied s idx len 0)
        ≡ handle_step L (take len (perline s.shell idx)) s
  unfolding run
  copy_turns s idx len fits =
      run-append L (reads len) (lua ∷ []) (copied s idx len 0)
      ∙ ap (turn L lua)
          (read_bytes s idx len len 0 fits (omega arith) ∙ ap (copied s idx len) (omega arith))
      ∙ read_end s idx len fits

  pub woken_turns :
      (s : System W)
      → IsValid s.shell
      → s.reader ≡ woken
      → run L (line_reads (perline_len s.shell s.shell.active_index)) s
        ≡ handle_step L (active_line s.shell) s
  unfolding run turn
  woken_turns s v before =
      let idx = s.shell.active_index in
      let len = perline_len s.shell idx in
      ap (run L (reads len ++ lua ∷ [])) ready ∙ copy_turns s idx len (perline-fits s.shell idx v)
    where
      ready :
          turn L lua (turn L lua s)
          ≡ copied s s.shell.active_index (perline_len s.shell s.shell.active_index) 0
      ready = ground arith

  -- With the shell at rest, a notified Lua task takes the notification and then does what a round of
  -- `Repl` does with the active line.
  pub lua_turns :
      (s : System W) {r : Repl W}
      → IsValid s.shell
      → s.reader ≡ waiting
      → 0 < s.pending
      → lua_task L s.shell s.repl ≡ some r
      → run L (lua ∷ line_reads (perline_len s.shell s.shell.active_index)) s ≡ record s {
        shell = record s.shell { stop_flag = r.stop_flag };
        pending = 0;
        repl = r;
        taken = s.taken ++ active_line s.shell ∷ [];
      }
  unfolding run turn lua_task handle_step
  lua_turns s v idle more e =
      ap (run L (line_reads (perline_len s.shell s.shell.active_index))) awake
      ∙ woken_turns (record s { pending = 0; reader = woken }) v refl
      ∙ ground arith
    where
      awake : turn L lua s ≡ record s { pending = 0; reader = woken }
      awake = ground arith
