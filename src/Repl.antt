-- ===== src/Repl.antt =====
-- The Lua task, main/Core_Level.c: `_HandleLuaCommand`, which gathers lines until they make a
-- chunk that Lua accepts, and `interrupt_hook`.
pub mod Buffer
pub mod Outcomes
pub mod Session
use Prim.Native.String.{String}
use clios.Prelude.{
  codes, ℕ, zero, suc, ◌+◌, ◌-◌, ◌%◌, Bool, true, false, ◌&&◌, ◌||◌, List, [], ◌∷◌, ◌++◌, Option,
  none, some, leb, ◌==◌, if◌then◌else◌, length, set, take, overwrite_at, replicate,
}
use mathlib.Core.Option
use clios.Shell.{Shell, perline, perline_len}

abbrev pub lua_buffer_size : ℕ
lua_buffer_size = 256

-- luaL_loadbuffer: LUA_OK, or another status with the message that lua_tostring returns, if any.
pub data Load : Type 0 where
  loaded : Load
  refused : Option (List ℕ) → Load

-- lua_pcall: LUA_OK with so many results, or another status with an error value.
pub data Call : Type 0 where
  returned : ℕ → Call
  failed : Call

-- The Lua library, whose source is not part of the repository: what it answers to a chunk in a state
-- of type `W`, and the state that a call leaves. The flag says that the count hook raises an error.
pub record Interpreter (W : Type 0) : Type 0 where
  pub loadbuffer : W → List ℕ → Load
  pub pcall : W → Bool → List ℕ → Call
  pub after : W → Bool → List ℕ → W

-- buffer_multiline, buffer_multiline_len (an uint8_t), stop_flag, whether the hook is installed, the
-- height of the Lua stack, and the state of Lua.
pub record Repl (W : Type 0) : Type 0 where
  pub lua : W
  pub multiline : List ℕ
  pub len : ℕ
  pub stop_flag : Bool
  pub hook : Bool
  pub stack : ℕ

-- The state at the head of `for (;;)` for the first time.
unfoldable pub init : {W : Type 0} → W → Repl W
init w = record {
  lua = w;
  multiline = replicate 256 0;
  len = 0;
  stop_flag = false;
  hook = true;
  stack = 0;
}

-- The hook raises "Execution interrupted" where the flag is set.
abbrev pub interrupt_hook : {W : Type 0} → Repl W → Bool
interrupt_hook s = s.hook && s.stop_flag

abbrev starts_with : List ℕ → List ℕ → Bool
starts_with [] hay = true
starts_with (n ∷ needle) [] = false
starts_with (n ∷ needle) (h ∷ hay) = n == h && starts_with needle hay

-- strstr (hay, needle) != NULL.
unfoldable pub strstr : List ℕ → List ℕ → Bool
strstr [] needle = starts_with needle []
strstr (h ∷ hay) needle = starts_with needle (h ∷ hay) || strstr hay needle

-- `err && strstr(err, text)`.
unfoldable pub mentions : String → Option (List ℕ) → Bool
unfolding strstr
mentions text none = false
mentions text (some err) = strstr err (codes text)

module _ {W : Type 0} where
  -- `buffer_multiline[len++] = '\n'; buffer_multiline[len] = 0`, with `len` an uint8_t.
  unfoldable pub end_line : Repl W → Repl W
  end_line s =
      let len = (s.len + 1) % 256 in
      record s { multiline = set (set s.multiline s.len 10) len 0; len = len }

  -- memcpy to the end of the gathered lines, and `len += n` with `len` an uint8_t.
  unfoldable pub append_bytes : Repl W → List ℕ → Repl W
  append_bytes s line = record s {
    multiline = overwrite_at s.len line s.multiline;
    len = (s.len + length line) % 256;
  }

  -- The memcpy and the newline behind it; `none` is a write past the end of the buffer, whose
  -- effect C does not define.
  unfoldable pub append_line : Repl W → List ℕ → Option (Repl W)
  append_line s line =
      if leb (s.len + length line) lua_buffer_size
      then some (end_line (append_bytes s line))
      else none

  -- The chunk that luaL_loadbuffer is given.
  abbrev pub chunk : Repl W → List ℕ
  chunk s = take s.len s.multiline

  -- The last two statements of the loop: the flag and the hook.
  unfoldable pub reset : Repl W → Repl W
  reset s = record s { stop_flag = false; hook = false }

  module _ (L : Interpreter W) where
    -- LUA_OK from luaL_loadbuffer, which left the chunk on the stack.
    unfoldable pub call_chunk : Repl W → Repl W
    call_chunk s = elim (L.pcall s.lua (interrupt_hook s) (chunk s)) [
      | returned n ↦ reset (record s {
        lua = L.after s.lua (interrupt_hook s) (chunk s);
        len = 0;
        stack = s.stack + n;
      })
      | failed ↦ record s { lua = L.after s.lua (interrupt_hook s) (chunk s); stop_flag = false }
    ]

    -- The end of the branch for a chunk that is refused for good.
    unfoldable pub syntax_error : Repl W → Repl W
    syntax_error s = reset (record s { len = 0 })

    -- The second luaL_loadbuffer, after one more newline and lua_settop(L, 0).
    unfoldable pub retry : Repl W → Repl W
    retry s =
        let t = record (end_line s) { stack = 0 } in
        elim (L.loadbuffer t.lua (chunk t)) [ loaded ↦ t | refused err ↦ syntax_error t ]

    -- The branch for a status other than LUA_OK, by the message of the error.
    unfoldable pub refuse : Option (List ℕ) → Repl W → Repl W
    refuse err s =
        if mentions "near <eof>" err
        then (if mentions "expected" err then s else retry s)
        else syntax_error s

    -- From luaL_loadbuffer to the end of the loop's body.
    unfoldable pub evaluate : Repl W → Repl W
    evaluate s = elim (L.loadbuffer s.lua (chunk s)) [
      | loaded ↦ call_chunk s
      | refused err ↦ refuse err s
    ]

    -- One round of `for (;;)` on the bytes of a line.
    unfoldable pub handle : Repl W → List ℕ → Option (Repl W)
    handle s line = Option.map evaluate (append_line s line)

    -- One round after a notification: the line is the active one of the two buffers.
    unfoldable pub lua_task : Shell → Repl W → Option (Repl W)
    lua_task shell s =
        handle s (take (perline_len shell shell.active_index) (perline shell shell.active_index))

    -- The rounds for a sequence of lines.
    unfoldable pub session : Repl W → List (List ℕ) → Option (Repl W)
    session s [] = some s
    session s (line ∷ lines) = elim (handle s line) [ none ↦ none | some t ↦ session t lines ]
