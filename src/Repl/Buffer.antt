-- ===== src/Repl/Buffer.antt =====
-- `_HandleLuaCommand` (main/Core_Level.c): how a line is added to `buffer_multiline`, whose length
-- is kept in an uint8_t.
use clios.Prelude.{
  ℕ, suc, ◌+◌, ◌%◌, ◌≤◌, ◌<◌, ◌≡◌, ap, ◌∙◌, ◌↔◌, List, [], ◌∷◌, ◌++◌, none, some, arith, length,
  get_or, set, length-set, length-overwrite_at, take-overwrite_at, take-set_le, take-set-suc,
  get_or-set_self,
}
use clios.Repl.{Repl, end_line, append_line, append_bytes, chunk}

pub record IsValid {W : Type 0} (s : Repl W) : Type 0 where
  pub size : length s.multiline ≡ 256
  pub len_below : s.len < 256

module _ {W : Type 0} (s : Repl W) (v : IsValid s) where
  -- With room for one byte and the NUL behind it, `end_line` ends the chunk by a newline.
  pub end_line_lem :
      s.len < 255
      → (chunk (end_line s) ≡ chunk s ++ 10 ∷ [])
        × ((end_line s).len ≡ s.len + 1)
        × (get_or (end_line s).multiline (end_line s).len 1 ≡ 0)
  unfolding end_line
  end_line_lem h =
      let e : (s.len + 1) % 256 ≡ suc s.len = omega arith in
      (
        rw (end_line, e)
            (take-set_le (set s.multiline s.len 10) (suc s.len) (suc s.len) 0 (omega arith)
              ∙ take-set-suc s.multiline s.len 10 (omega (arith, v.size))),
        omega arith,
        rw e (
            get_or-set_self (set s.multiline s.len 10) (suc s.len) 0 1
              (omega (arith, v.size, length-set s.multiline s.len 10))),
      )

  pub end_line-IsValid : IsValid (end_line s)
  unfolding end_line
  end_line-IsValid = grind (arith, length-set)

  -- At the last byte the length wraps to 0, and the NUL overwrites the first byte.
  pub end_line-wraps : s.len ≡ 255 → (chunk (end_line s) ≡ []) × ((end_line s).len ≡ 0)
  unfolding end_line
  end_line-wraps h = ground arith

module _ {W : Type 0} (s : Repl W) (v : IsValid s) (line : List ℕ) where
  append_bytes-IsValid : IsValid (append_bytes s line)
  unfolding append_bytes
  append_bytes-IsValid = grind (arith, length-overwrite_at)

  append_bytes-len : s.len + length line < 256 → (append_bytes s line).len ≡ s.len + length line
  unfolding append_bytes
  append_bytes-len h = omega arith

  append_bytes-chunk : s.len + length line < 256 → chunk (append_bytes s line) ≡ chunk s ++ line
  unfolding append_bytes
  append_bytes-chunk h =
      let e : (s.len + length line) % 256 ≡ s.len + length line = omega arith in
      rw e (take-overwrite_at s.len line s.multiline (omega (arith, v.size)))

  append_line-some :
      s.len + length line ≤ 256 → append_line s line ≡ some (end_line (append_bytes s line))
  unfolding append_line
  append_line-some h = ground arith

  -- A line for which the buffer has room, with its newline and a NUL, extends the chunk by exactly
  -- the line and the newline, and the result is terminated.
  pub append_line_lem :
      s.len + length line ≤ 254
      → (t : Repl W) × (append_line s line ≡ some t)
        × (chunk t ≡ chunk s ++ line ++ 10 ∷ [])
        × (t.len ≡ s.len + length line + 1)
        × (get_or t.multiline t.len 1 ≡ 0)
        × IsValid t
  append_line_lem h =
      let e : (append_bytes s line).len ≡ s.len + length line = append_bytes-len (omega arith) in
      let (text, len, end) =
        end_line_lem (append_bytes s line) append_bytes-IsValid (omega arith) in
      (
        end_line (append_bytes s line),
        append_line-some (omega arith),
        text ∙ ap (λ l. l ++ 10 ∷ []) (append_bytes-chunk (omega arith)),
        omega arith,
        end,
        end_line-IsValid (append_bytes s line) append_bytes-IsValid,
      )

  -- The copy leaves the buffer exactly when the line is longer than the room behind the chunk.
  append_line-none : (append_line s line ≡ none) ↔ (256 < s.len + length line)
  unfolding append_line
  append_line-none = ground arith

  -- A line that fills the buffer to its last byte makes the length wrap: Lua gets an empty chunk,
  -- and every line gathered so far is lost.
  append_line-wraps :
      s.len + length line ≡ 255
      → (t : Repl W) × (append_line s line ≡ some t) × (chunk t ≡ []) × (t.len ≡ 0)
  append_line-wraps h =
      let e =
        end_line-wraps (append_bytes s line) append_bytes-IsValid
          (append_bytes-len (omega arith) ∙ h) in
      (end_line (append_bytes s line), append_line-some (omega arith), e.0, e.1)

  pub append_line-IsValid : {t : Repl W} → append_line s line ≡ some t → IsValid t
  unfolding append_line
  append_line-IsValid {t} h =
      ground (arith, end_line-IsValid (append_bytes s line) append_bytes-IsValid)
