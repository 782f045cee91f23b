-- ===== src/Tasks/Races.antt =====
-- The two tasks of main/Core_Level.c in any order of their accesses to the double buffer: when the
-- Lua task gets the line it was woken for, and when it gets another.
use clios.Prelude.{
  ℕ, zero, suc, ◌+◌, ◌≤◌, ◌<◌, ◌≡◌, ◌∙◌, Bool, false, not, ◌&&◌, List, [], ◌∷◌, ◌++◌, inl, inr,
  Bool-cases, if◌then◌else◌, ltb, ltb→lt, arith, length, take, length-take,
}
use clios.Shell.{perline, perline_len, char_step, quit}
use clios.Shell.Editor.{IsValid}
use clios.Shell.Handoff.{active_line}
use clios.Repl.{Interpreter}
use clios.Tasks.{
  Writer, scanning, copying, recording, publishing, notifying, Reader, woken, indexed, reading,
  System, ends_line, writer_at, Turn, shell, lua, turn,
}
use clios.Tasks.Taking.{take-suc, perline-fits}
use clios.Tasks.History.{Takes, handle_step-taken, later-Takes, now-Takes}

-- How many of the turns are the Lua task's.
abbrev pub luas : List Turn → ℕ
luas [] = 0
luas (shell chunk ∷ xs) = luas xs
luas (lua ∷ xs) = suc (luas xs)

abbrev swapped : ℕ → Bool → Bool
swapped zero idx = idx
swapped (suc n) idx = not idx

-- After the shell has begun `b` lines, it is not writing the buffer `idx`, where `active` is the
-- value of active_index.
abbrev Away : Bool → ℕ → Writer → Bool → Type 0
Away idx b (scanning i len) active = active ≡ swapped b idx
Away idx b (copying l k) active = (b ≡ 1) × (active ≡ idx) × (l.next_index ≡ not idx)
Away idx b (recording l) active = (b ≡ 1) × (active ≡ idx) × (l.next_index ≡ not idx)
Away idx b (publishing l) active = (b ≡ 1) × (active ≡ idx) × (l.next_index ≡ not idx)
Away idx b (notifying l) active = (b ≡ 1) × (active ≡ not idx)

module _ {W : Type 0} where
  -- Whether the next access of the shell begins to hand over a line.
  abbrev begins_at : Writer → System W → ℕ
  begins_at (scanning i len) s = if ltb i len && ends_line i s then 1 else 0
  begins_at (copying l k) s = 0
  begins_at (recording l) s = 0
  begins_at (publishing l) s = 0
  begins_at (notifying l) s = 0

  -- How many lines the shell begins to hand over in these turns.
  unfoldable pub begun : Interpreter W → List Turn → System W → ℕ
  begun L [] s = 0
  begun L (shell chunk ∷ xs) s = begins_at s.writer s + begun L xs (turn L (shell chunk) s)
  begun L (lua ∷ xs) s = begun L xs (turn L lua s)

  -- The buffer `idx` and its length are as they were, and so is the Lua task.
  abbrev Untouched : Bool → System W → System W → Type 0
  Untouched idx s t =
      (perline t.shell idx ≡ perline s.shell idx)
      × (perline_len t.shell idx ≡ perline_len s.shell idx)
      × (t.reader ≡ s.reader)
      × (t.taken ≡ s.taken)

  -- A byte that ends no line changes neither buffer.
  char-Untouched :
      (i : ℕ) (s : System W)
      → ends_line i s ≡ false
      → let t = char_step i s.shell in
        (t.active_index ≡ s.shell.active_index)
        × (t.perline0 ≡ s.shell.perline0)
        × (t.perline1 ≡ s.shell.perline1)
        × (t.perline_len0 ≡ s.shell.perline_len0)
        × (t.perline_len1 ≡ s.shell.perline_len1)
  unfolding char_step
  char-Untouched i s h = ground arith

  writer_at-Away :
      (idx : Bool) (b : ℕ) (w : Writer) (chunk : List ℕ) (s : System W)
      → Away idx b w s.shell.active_index
      → b + begins_at w s ≤ 1
      → let t = writer_at w chunk s in
        Away idx (b + begins_at w s) t.writer t.shell.active_index × Untouched idx s t
  unfolding writer_at quit
  writer_at-Away idx zero (scanning i len) chunk s a h = ground (arith, char-Untouched i s)
  writer_at-Away idx (suc b) (scanning i len) chunk s a h = ground (arith, char-Untouched i s)
  writer_at-Away idx b (copying l k) chunk s a h = ground arith
  writer_at-Away idx b (recording l) chunk s a h = ground arith
  writer_at-Away idx b (publishing l) chunk s a h = ground arith
  writer_at-Away idx b (notifying l) chunk s a h = ground arith

module _ {W : Type 0} (L : Interpreter W) where
  module _ (idx : Bool) (p : List ℕ) (len : ℕ) (fits : len ≤ length p) where
    -- The Lua task is at the place `r`, and the shell away from the buffer.
    abbrev Holds : ℕ → Reader → System W → Type 0
    Holds b r s =
        Away idx b s.writer s.shell.active_index
        × (perline s.shell idx ≡ p)
        × (perline_len s.shell idx ≡ len)
        × (s.reader ≡ r)

    abbrev after : ℕ → Reader
    after k = reading idx len (take k p)

    shell-Holds :
        (chunk : List ℕ) (b : ℕ) (r : Reader) (s : System W)
        → Holds b r s
        → b + begins_at s.writer s ≤ 1
        → let t = turn L (shell chunk) s in
          (t.taken ≡ s.taken) × Holds (b + begins_at s.writer s) r t
    unfolding turn
    shell-Holds chunk b r s (a, e, f, g) few =
        let (away, same) = writer_at-Away idx b s.writer chunk s a few in
        (same.3, (away, same.0 ∙ e, same.1 ∙ f, same.2 ∙ g))

    lua-indexed :
        (b : ℕ) (s : System W)
        → Holds b (indexed idx) s
        → ((turn L lua s).taken ≡ s.taken) × Holds b (after 0) (turn L lua s)
    unfolding turn
    lua-indexed b s h = ground arith

    lua-after :
        (b k : ℕ) (s : System W)
        → Holds b (after k) s
        → k < len
        → ((turn L lua s).taken ≡ s.taken) × Holds b (after (suc k)) (turn L lua s)
    unfolding turn
    lua-after b k s h more = ground (arith, length-take k p, take-suc k p)

    lua-end :
        (b : ℕ) (s : System W)
        → Holds b (after len) s
        → (turn L lua s).taken ≡ s.taken ++ take len p ∷ []
    unfolding turn
    lua-end b s h = ground (arith, length-take len p, handle_step-taken L (take len p) s)

    after-Takes :
        (xs : List Turn) (b k : ℕ) (s : System W)
        → Holds b (after k) s
        → k ≤ len
        → b + begun L xs s ≤ 1
        → len < k + luas xs
        → Takes L (take len p) xs s
    unfolding begun
    after-Takes [] b k s h at few enough = absurd (omega arith)
    after-Takes (shell chunk ∷ xs) b k s h at few enough =
        let (same, next) = shell-Holds chunk b (after k) s h (omega arith) in
        later-Takes L (take len p) (shell chunk) xs s same (
          after-Takes xs (b + begins_at s.writer s) k (turn L (shell chunk) s) next at (omega arith)
            enough)
    after-Takes (lua ∷ xs) b k s h at few enough = elim (Bool-cases (ltb k len)) [
      | inl more ↦
          let (same, next) = lua-after b k s h (ltb→lt k len more) in
          later-Takes L (take len p) lua xs s same
            (after-Takes xs b (suc k) (turn L lua s) next (ltb→lt k len more) few (omega arith))
      | inr done ↦ now-Takes L (take len p) lua xs s (ground (arith, lua-end b s))
    ]

    indexed-Takes :
        (xs : List Turn) (b : ℕ) (s : System W)
        → Holds b (indexed idx) s
        → b + begun L xs s ≤ 1
        → len + 1 < luas xs
        → Takes L (take len p) xs s
    unfolding begun
    indexed-Takes [] b s h few enough = absurd (omega arith)
    indexed-Takes (shell chunk ∷ xs) b s h few enough =
        let (same, next) = shell-Holds chunk b (indexed idx) s h (omega arith) in
        later-Takes L (take len p) (shell chunk) xs s same (
          indexed-Takes xs (b + begins_at s.writer s) (turn L (shell chunk) s) next (omega arith)
            enough)
    indexed-Takes (lua ∷ xs) b s h few enough =
        let (same, next) = lua-indexed b s h in
        later-Takes L (take len p) lua xs s same
          (after-Takes xs b 0 (turn L lua s) next (omega arith) few (omega arith))

  -- With all buffers in order, the Lua task loads active_index while the shell is at the test of its
  -- loop: if the shell begins to hand over at most one line in the turns after it, and the Lua task
  -- has two more of these turns than the line has bytes, then the next line in its history is, byte
  -- for byte, the one that was active at the load.
  pub loaded_line_taken :
      (xs : List Turn) (s : System W) (i len : ℕ)
      → IsValid s.shell
      → s.writer ≡ scanning i len
      → s.reader ≡ woken
      → begun L xs (turn L lua s) ≤ 1
      → perline_len s.shell s.shell.active_index + 2 ≤ luas xs
      → Takes L (active_line s.shell) (lua ∷ xs) s
  unfolding turn
  loaded_line_taken xs s i len v at before few enough =
      let idx = s.shell.active_index in
      later-Takes L (active_line s.shell) lua xs s (ground arith) (
        indexed-Takes idx (perline s.shell idx) (perline_len s.shell idx)
          (perline-fits s.shell idx v) xs 0 (turn L lua s) (ground arith) (omega arith)
          (omega arith))
