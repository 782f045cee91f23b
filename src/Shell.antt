-- ===== src/Shell.antt =====
-- The line editor of the shell task, main/Core_Level.c: `_ShellTask`, with the double buffer by
-- which it hands a line to the Lua task. Console output (LOG_I) is the field `console`.
pub mod Editor
pub mod Lines
pub mod Typed
pub mod Split
pub mod Handoff
use clios.Prelude.{
  ℕ, zero, suc, ◌+◌, ◌%◌, ◌≤◌, ◌<◌, ◌≡◌, Bool, true, false, not, ◌||◌, ◌&&◌, List, [], ◌∷◌, ◌++◌,
  ltb, leb, ◌==◌, if◌then◌else◌, length, get_or, set, take, replicate, overwrite, c_str,
}

abbrev pub char_buffer_size : ℕ
char_buffer_size = 64

-- The globals that the two tasks share, with the locals `buffer_input` and `index` of the shell.
-- `notified` counts the calls of xTaskNotifyGive, and `console` holds the lines echoed.
pub record Shell : Type 0 where
  pub buffer_input : List ℕ
  pub index : ℕ
  pub active_index : Bool
  pub perline0 : List ℕ
  pub perline1 : List ℕ
  pub perline_len0 : ℕ
  pub perline_len1 : ℕ
  pub stop_flag : Bool
  pub notified : ℕ
  pub console : List (List ℕ)

-- buffer_perline[idx] and buffer_perline_len[idx].
abbrev pub perline : Shell → Bool → List ℕ
perline s idx = if idx then s.perline1 else s.perline0

abbrev pub perline_len : Shell → Bool → ℕ
perline_len s idx = if idx then s.perline_len1 else s.perline_len0

abbrev pub set_perline : Shell → Bool → List ℕ → ℕ → Shell
set_perline s idx line len =
    if idx
    then record s { perline1 = line; perline_len1 = len }
    else record s { perline0 = line; perline_len0 = len }

-- Zero-initialised globals; the local buffer holds any bytes.
unfoldable pub init : List ℕ → Shell
init stack = record {
  buffer_input = stack;
  index = 0;
  active_index = false;
  perline0 = replicate 64 0;
  perline1 = replicate 64 0;
  perline_len0 = 0;
  perline_len1 = 0;
  stop_flag = false;
  notified = 0;
  console = [];
}

abbrev pub is_eol : ℕ → Bool
is_eol c = c == 13 || c == 10

-- memcpy (dst, src, len), then dst[len] = 0.
unfoldable pub copy_line : List ℕ → ℕ → List ℕ → List ℕ
copy_line src len dst = set (overwrite (take len src) dst) len 0

-- `buffer_input[index] = 0` and the rest of the body of `if (index > 0)`, without its last test.
unfoldable pub hand_over : Shell → Shell
hand_over s =
    let input = set s.buffer_input s.index 0 in
    let next_index = not s.active_index in
    let len = if leb char_buffer_size s.index then 63 else s.index in
    let t = set_perline s next_index (copy_line input len (perline s next_index)) len in
    record t {
      buffer_input = input;
      index = 0;
      active_index = next_index;
      notified = s.notified + 1;
      console = s.console ++ c_str input ∷ [];
    }

-- The branch `c == 'q'` that ends the body, inside the test for the end of a line.
unfoldable pub quit : ℕ → Shell → Shell
quit c s = if c == b'q' then (if s.stop_flag then s else record s { stop_flag = true }) else s

-- One round of the `for` loop, on the byte at `i`. `index` is an uint8_t.
unfoldable pub char_step : ℕ → Shell → Shell
char_step i s =
    let c = get_or s.buffer_input i 0 in
    if is_eol c
    then (if ltb 0 s.index then quit c (hand_over s) else s)
    else if ltb s.index 63
    then record s { buffer_input = set s.buffer_input s.index c; index = (s.index + 1) % 256 }
    else s

-- The rounds `i`, `i + 1`, ... of the loop, as many as the first argument says.
unfoldable pub scan : ℕ → ℕ → Shell → Shell
scan zero i s = s
scan (suc k) i s = scan k (suc i) (char_step i s)

-- One round of `for (;;)`: uart_read_bytes stores a chunk at the start of `buffer_input`, at most
-- sizeof buffer_input bytes; on a timeout or an error the chunk is empty.
unfoldable pub shell_round : List ℕ → Shell → Shell
unfolding scan
shell_round chunk s =
    scan (length chunk) 0 (record s { buffer_input = overwrite chunk s.buffer_input })

-- The shell over a sequence of chunks.
unfoldable pub shell : List (List ℕ) → Shell → Shell
shell [] s = s
shell (chunk ∷ chunks) s = shell chunks (shell_round chunk s)
