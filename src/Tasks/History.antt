-- ===== src/Tasks/History.antt =====
-- The lines that the Lua task of main/Core_Level.c has taken, over the turns of both tasks.
use mathlib.Core.List.{append_assoc}
use clios.Prelude.{
  ℕ, ◌≡◌, refl, sym, ap, ◌∙◌, List, [], ◌∷◌, ◌++◌, inl, inr, Bool-cases, append-nil, ltb, arith,
  length,
}
use clios.Repl.{Interpreter}
use clios.Tasks.{
  Writer, scanning, Reader, waiting, woken, indexed, reading, stopped, System, writer_at, reader_at,
  handle_step, Turn, shell, lua, turn, run,
}

module _ {W : Type 0} (L : Interpreter W) where
  -- The history only grows.
  Grows : List (List ℕ) → System W → Type 0
  Grows taken t = (rest : List (List ℕ)) × (t.taken ≡ taken ++ rest)

  grow-grow :
      (taken : List (List ℕ)) (s t : System W) → Grows taken s → Grows s.taken t → Grows taken t
  unfolding Grows
  grow-grow taken s t (xs, e) (ys, f) =
      (xs ++ ys, f ∙ ap (λ zs. zs ++ ys) e ∙ append_assoc taken xs ys)

  pub handle_step-taken :
      (line : List ℕ) (s : System W) → (handle_step L line s).taken ≡ s.taken ++ line ∷ []
  unfolding handle_step
  handle_step-taken line s = ground arith

  writer_at-taken :
      (w : Writer) (chunk : List ℕ) (s : System W) → (writer_at w chunk s).taken ≡ s.taken
  unfolding writer_at
  writer_at-taken (scanning i len) chunk s = ground arith
  writer_at-taken w chunk s = ground arith

  same-Grows : (s t : System W) → t.taken ≡ s.taken → Grows s.taken t
  unfolding Grows
  same-Grows s t e = ([], e ∙ sym (append-nil s.taken))

  reader_at-Grows : (r : Reader) (s : System W) → Grows s.taken (reader_at L r s)
  unfolding reader_at Grows
  reader_at-Grows waiting s = same-Grows s (reader_at L waiting s) (ground arith)
  reader_at-Grows woken s = same-Grows s (reader_at L woken s) refl
  reader_at-Grows (indexed idx) s = same-Grows s (reader_at L (indexed idx) s) refl
  reader_at-Grows (reading idx len got) s = elim (Bool-cases (ltb (length got) len)) [
    | inl more ↦ same-Grows s (reader_at L (reading idx len got) s) (ground arith)
    | inr done ↦ (got ∷ [], ground (arith, handle_step-taken got s))
  ]
  reader_at-Grows stopped s = same-Grows s (reader_at L stopped s) refl

  turn-Grows : (x : Turn) (s : System W) → Grows s.taken (turn L x s)
  unfolding turn
  turn-Grows (shell chunk) s = same-Grows s _ (writer_at-taken s.writer chunk s)
  turn-Grows lua s = reader_at-Grows s.reader s

  run-Grows : (xs : List Turn) (s : System W) → Grows s.taken (run L xs s)
  unfolding run
  run-Grows [] s = same-Grows s s refl
  run-Grows (x ∷ xs) s =
      grow-grow s.taken (turn L x s) _ (turn-Grows x s) (run-Grows xs (turn L x s))

  -- The line `take len p` comes next in the history.
  abbrev pub Takes : List ℕ → List Turn → System W → Type 0
  Takes line xs s = (rest : List (List ℕ)) × ((run L xs s).taken ≡ s.taken ++ line ∷ rest)

  pub later-Takes :
      (line : List ℕ) (x : Turn) (xs : List Turn) (s : System W)
      → (turn L x s).taken ≡ s.taken
      → Takes line xs (turn L x s)
      → Takes line (x ∷ xs) s
  unfolding run
  later-Takes line x xs s e (rest, f) = (rest, f ∙ ap (λ zs. zs ++ line ∷ rest) e)

  pub now-Takes :
      (line : List ℕ) (x : Turn) (xs : List Turn) (s : System W)
      → (turn L x s).taken ≡ s.taken ++ line ∷ []
      → Takes line (x ∷ xs) s
  unfolding run Grows
  now-Takes line x xs s e =
      let (rest, f) = run-Grows xs (turn L x s) in
      (rest, f ∙ ap (λ zs. zs ++ rest) e ∙ append_assoc s.taken (line ∷ []) rest)
