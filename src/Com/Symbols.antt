-- ===== src/Com/Symbols.antt =====
-- The memory of the library `rmt`, components/COM/com_rmt.c: what send_raw frees and what it leaks.
use clios.Prelude.{
  ℕ, suc, ◌*◌, ◌/◌, ◌%◌, ◌==◌, ◌≡◌, ◌∙◌, refl, false, List, [], ◌∷◌, ◌++◌, Option, none, some,
  arith, length,
}
use clios.Prelude.Int.{ℤ, pos}
use clios.Lua.{Slot, raised, message, ◌>>=◌}
use clios.Driver.{World, Machine, malloc, is_null}
use clios.Driver.Memory.{Frees, Leaves, live, live-snoc, frees_rules}
use clios.Driver.Buffers.{Steady, Releases, Frees-buffer, buffer_rules}
use clios.Com.Rmt.{
  Rmt, read_symbols, transmit, send_symbols, send_into, send_table, delete_encoder, delete_channel,
  rmt_close,
}

transmit-Steady : (w : World) (xs : List ℕ) → Steady w (transmit w xs)
unfolding transmit
transmit-Steady w xs = search buffer_rules depth 12

send_into-Releases :
    (w : World) (xs : List ℕ) (syms : ℤ) → Releases w syms (send_into w (some xs) syms)
unfolding send_into send_symbols
send_into-Releases w xs syms = search (frees_rules, buffer_rules, transmit-Steady) depth 12

send_table-Frees :
    (w : World) (ds : List (Option ℤ)) (xs : List ℕ)
    → read_symbols ds ≡ some xs
    → Frees w (send_table w ds)
unfolding send_table
send_table-Frees w ds xs e =
    rw (e) (search (frees_rules, Frees-buffer, send_into-Releases) depth 12)

-- Where every element of a table is a number, send_raw frees the symbols before it returns to Lua, also
-- by an error, and frees nothing else.
send_table_balance :
    (w : World) (ds : List (Option ℤ)) (xs : List ℕ) (s : Machine Rmt)
    → read_symbols ds ≡ some xs
    → Leaves (λ t. live w t.trace ≡ live w s.trace) (send_table w ds s)
send_table_balance w ds xs s e = (send_table-Frees w ds xs e).frees s

-- Where an element of a table with an even number of elements is no number, send_raw ends in an error
-- that keeps the block it has allocated: it is in use besides those from before.
pub send_table_leaks :
    (w : World) (ds : List (Option ℤ)) (s : Machine Rmt) (k : ℕ)
    → length ds ≡ suc k * 2
    → read_symbols ds ≡ none
    → is_null (w.answer s.trace (malloc (pos (length ds / 2 * 4)))) ≡ false
    → (t : Machine Rmt) × (send_table w ds s ≡ raised (message "number expected") t)
      × (live w t.trace ≡ w.answer s.trace (malloc (pos (length ds / 2 * 4))) ∷ live w s.trace)
unfolding send_table send_into send_symbols
send_table_leaks w ds s k e n h =
    let nonempty : (length ds == 0) ≡ false = ground arith in
    let even : (length ds % 2 == 1) ≡ false = ground arith in
    let block = malloc (pos (length ds / 2 * 4)) in
    (
      record s { trace = s.trace ++ block ∷ [] },
      rw (nonempty, even, h, n, send_symbols) refl,
      live-snoc w s.trace block ∙ rw (h) refl,
    )

-- `h:close()` a second time changes neither the handle nor the calls made: the encoder and the channel
-- are deleted at most once, whatever the arguments.
rmt_close_twice :
    (w : World) (args : List Slot) (s : Machine Rmt)
    → (rmt_close w args >>= λ _. rmt_close w args) s ≡ rmt_close w args s
unfolding rmt_close delete_encoder delete_channel
rmt_close_twice w args s = ground arith
