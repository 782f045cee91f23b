-- ===== src/Tasks.antt =====
-- `_ShellTask` and `_HandleLuaCommand` (main/Core_Level.c) side by side: their accesses to the
-- globals that they share, one at a time and in any order. `memcpy` goes byte by byte, upwards.
pub mod Handing
pub mod Taking
mod History
pub mod Races
pub mod Twice
pub mod Bounds
pub mod Script
pub mod Torn
pub mod Interrupt
use clios.Prelude.{
  ℕ, zero, suc, ◌+◌, Bool, not, ◌&&◌, List, [], ◌∷◌, ◌++◌, none, some, ltb, leb, if◌then◌else◌,
  length, get_or, set, overwrite, c_str,
}
use clios.Shell.{
  Shell, char_buffer_size, perline, perline_len, set_perline, is_eol, quit, char_step,
}
use clios.Repl.{Repl, Interpreter, handle}

-- The locals `i`, `len`, `c` and `next_index` of the shell while it hands a line over.
pub record Locals : Type 0 where
  pub i : ℕ
  pub len : ℕ
  pub c : ℕ
  pub next_index : Bool

-- Where the shell stands: at the test of its `for` loop, in the memcpy after so many bytes, before
-- the store of the length, before the store of active_index, or before xTaskNotifyGive.
pub data Writer : Type 0 where
  scanning : (i len : ℕ) → Writer
  copying : (l : Locals) (k : ℕ) → Writer
  recording : (l : Locals) → Writer
  publishing : (l : Locals) → Writer
  notifying : (l : Locals) → Writer

-- Where the Lua task stands: in ulTaskNotifyTake, before the load of active_index, before that of
-- the length, in the memcpy with the bytes it has copied, or past a write outside its buffer.
pub data Reader : Type 0 where
  waiting : Reader
  woken : Reader
  indexed : (idx : Bool) → Reader
  reading : (idx : Bool) (len : ℕ) (got : List ℕ) → Reader
  stopped : Reader

-- The globals, each task's locals and place, and the notification value of the Lua task. `taken` is
-- the history of the lines that the Lua task has copied. Both records have the global stop_flag.
pub record System (W : Type 0) : Type 0 where
  pub shell : Shell
  pub writer : Writer
  pub pending : ℕ
  pub reader : Reader
  pub repl : Repl W
  pub taken : List (List ℕ)

module _ {W : Type 0} where
  -- The test for the end of a line, with a line to hand over.
  abbrev pub ends_line : ℕ → System W → Bool
  ends_line i s = is_eol (get_or s.shell.buffer_input i 0) && ltb 0 s.shell.index

  -- The terminator in buffer_input, the load of active_index, and the bound on `index`.
  abbrev pub begin_line : ℕ → ℕ → System W → System W
  begin_line i len s = record s {
    shell = record s.shell {
      buffer_input = set s.shell.buffer_input s.shell.index 0;
      index = if leb char_buffer_size s.shell.index then 63 else s.shell.index;
    };
    writer =
        copying
          (record {
            i = i;
            len = len;
            c = get_or s.shell.buffer_input i 0;
            next_index = not s.shell.active_index;
          })
          0;
  }

  -- At the test of the loop: uart_read_bytes, whose bytes are the first argument, or a byte.
  unfoldable pub scan_step : List ℕ → ℕ → ℕ → System W → System W
  scan_step chunk i len s =
      if ltb i len
      then (if ends_line i s
          then begin_line i len s
          else record s { shell = char_step i s.shell; writer = scanning (suc i) len })
      else record s {
        shell = record s.shell { buffer_input = overwrite chunk s.shell.buffer_input };
        writer = scanning 0 (length chunk);
      }

  -- One byte of the memcpy, or the terminator behind the last.
  unfoldable pub copy_step : Locals → ℕ → System W → System W
  copy_step l k s =
      let line = perline s.shell l.next_index in
      let len = perline_len s.shell l.next_index in
      if ltb k s.shell.index
      then record s {
        shell = set_perline s.shell l.next_index (set line k (get_or s.shell.buffer_input k 0)) len;
        writer = copying l (suc k);
      }
      else record s {
        shell = set_perline s.shell l.next_index (set line s.shell.index 0) len;
        writer = recording l;
      }

  -- `buffer_perline_len[next_index] = index`.
  unfoldable pub record_step : Locals → System W → System W
  record_step l s = record s {
    shell = set_perline s.shell l.next_index (perline s.shell l.next_index) s.shell.index;
    writer = publishing l;
  }

  -- atomic_store (&active_index, next_index).
  unfoldable pub publish_step : Locals → System W → System W
  publish_step l s = record s {
    shell = record s.shell { active_index = l.next_index };
    writer = notifying l;
  }

  -- xTaskNotifyGive, and the rest of the body.
  unfoldable pub notify_step : Locals → System W → System W
  notify_step l s =
      let shell = quit l.c (record s.shell {
        index = 0;
        notified = s.shell.notified + 1;
        console = s.shell.console ++ c_str s.shell.buffer_input ∷ [];
      }) in
      record s {
        shell = shell;
        writer = scanning (suc l.i) l.len;
        pending = s.pending + 1;
        repl = record s.repl { stop_flag = shell.stop_flag };
      }

  unfoldable pub writer_at : Writer → List ℕ → System W → System W
  unfolding scan_step copy_step record_step publish_step notify_step
  writer_at (scanning i len) chunk s = scan_step chunk i len s
  writer_at (copying l k) chunk s = copy_step l k s
  writer_at (recording l) chunk s = record_step l s
  writer_at (publishing l) chunk s = publish_step l s
  writer_at (notifying l) chunk s = notify_step l s

  -- The next access of the shell.
  unfoldable pub writer_step : List ℕ → System W → System W
  unfolding writer_at
  writer_step chunk s = writer_at s.writer chunk s

  module _ (L : Interpreter W) where
    -- ulTaskNotifyTake (pdTRUE), which blocks at 0 and else clears the value.
    unfoldable pub take_step : ℕ → System W → System W
    take_step zero s = s
    take_step (suc n) s = record s { pending = 0; reader = woken }

    -- From the end of the memcpy to the next ulTaskNotifyTake: no other access to the buffers.
    unfoldable pub handle_step : List ℕ → System W → System W
    handle_step line s = elim (handle L s.repl line) [
      | none ↦ record s { reader = stopped; taken = s.taken ++ line ∷ [] }
      | some r ↦ record s {
        shell = record s.shell { stop_flag = r.stop_flag };
        reader = waiting;
        repl = r;
        taken = s.taken ++ line ∷ [];
      }
    ]

    -- One byte of the memcpy, or what follows it.
    unfoldable pub read_step : Bool → ℕ → List ℕ → System W → System W
    unfolding handle_step
    read_step idx len got s =
        if ltb (length got) len
        then record s {
          reader = reading idx len (got ++ get_or (perline s.shell idx) (length got) 0 ∷ []);
        }
        else handle_step got s

    unfoldable pub reader_at : Reader → System W → System W
    unfolding take_step read_step
    reader_at waiting s = take_step s.pending s
    reader_at woken s = record s { reader = indexed s.shell.active_index }
    reader_at (indexed idx) s = record s { reader = reading idx (perline_len s.shell idx) [] }
    reader_at (reading idx len got) s = read_step idx len got s
    reader_at stopped s = s

    -- The next access of the Lua task.
    unfoldable pub reader_step : System W → System W
    unfolding reader_at
    reader_step s = reader_at s.reader s

-- Whose access comes next; for the shell, with the bytes that the UART has for it.
pub data Turn : Type 0 where
  shell : (chunk : List ℕ) → Turn
  lua : Turn

module _ {W : Type 0} (L : Interpreter W) where
  unfoldable pub turn : Turn → System W → System W
  unfolding writer_step reader_step
  turn (shell chunk) s = writer_step chunk s
  turn lua s = reader_step L s

  -- The accesses of both tasks in their order.
  unfoldable pub run : List Turn → System W → System W
  unfolding turn
  run [] s = s
  run (x ∷ xs) s = run xs (turn x s)
