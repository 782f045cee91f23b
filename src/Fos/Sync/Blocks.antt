-- ===== src/Fos/Sync/Blocks.antt =====
-- The blocks and the values of the libraries of components/FOS: which blocks stay in use, and what a
-- queue hands on.
use clios.Prelude.{
  ℕ, ◌+◌, ◌*◌, ◌%◌, ◌/◌, ◌<◌, ◌≡◌, refl, ◌∙◌, ap, false, Bool-cases, inl, inr, List, [], ◌∷◌, ◌++◌,
  if◌then◌else◌, arith,
}
use clios.Prelude.Int.{ℤ, pos, negsuc, to_int, to_u32, signed32}
use clios.Lua.{integer, done, udata_slot, int_slot, ◌>>=◌}
use clios.Driver.{Arg, Call, bytes, int, malloc, free, driver, World, Machine, after, is_null}
use clios.Driver.Memory.{live, live-snoc, remove, remove_same}
use clios.Fos.Sync.{Sync, int_bytes, int_of_bytes, make, queue_send, queue_receive, handle_arg}
use Prim.Native.String.{String}

bytes_sum :
    (n : ℕ)
    → n < 4294967296
    → n % 256 + 256 * (n / 256 % 256) + 65536 * (n / 65536 % 256) + 16777216 * (n / 16777216) ≡ n
bytes_sum n h = omega arith

to_u32_lt : (z : ℤ) → to_u32 z < 4294967296
to_u32_lt (pos n) = omega arith
to_u32_lt (negsuc n) = omega arith

int_of_bytes-int_bytes : (z : ℤ) → int_of_bytes (int_bytes z) ≡ to_int z
int_of_bytes-int_bytes z = ap signed32 (bytes_sum (to_u32 z) (to_u32_lt z))

-- The calls of FreeRTOS that `queue.send` and `queue.receive` make on a queue.
abbrev pub send_call : Machine Sync → List ℕ → Call
send_call s bs = driver "xQueueSend" (int s.own.handle ∷ bytes bs ∷ [])

abbrev pub receive_call : Machine Sync → Call
receive_call s = driver "xQueueReceive" (int s.own.handle ∷ [])

-- If FreeRTOS hands out from the queue the bytes that it is given next, whatever they are, as it does
-- where the queue is empty, then a number that `queue.send` is given is what `queue.receive` returns
-- after it, cut to the 32 bits of an `int`, with these two calls of FreeRTOS and no others.
pub send_then_receive :
    (w : World) (s : Machine Sync) (n : String) (z : ℤ)
    → ((bs : List ℕ) → w.stored (s.trace ++ send_call s bs ∷ []) (receive_call s) ≡ bs)
    → (queue_send w (udata_slot n ∷ int_slot z ∷ []) >>= λ _. queue_receive w (udata_slot n ∷ [])) s
      ≡ done
          (integer (to_int z) ∷ [])
          (record s { trace = (s.trace ++ send_call s (int_bytes z) ∷ []) ++ receive_call s ∷ [] })
unfolding queue_send queue_receive handle_arg
send_then_receive w s n z h = rw (h (int_bytes z), int_of_bytes-int_bytes z) refl

abbrev block_of : World → Machine Sync → ℤ
block_of w s = w.answer s.trace (malloc (pos 4))

-- The blocks in use once the handle has been asked for, and once the block is freed.
live_made :
    (w : World) (f : String) (xs : List Arg) (s : Machine Sync)
    → is_null (block_of w s) ≡ false
    → live w ((s.trace ++ malloc (pos 4) ∷ []) ++ driver f xs ∷ []) ≡ block_of w s ∷ live w s.trace
live_made w f xs s h =
    live-snoc w (s.trace ++ malloc (pos 4) ∷ []) (driver f xs)
    ∙ live-snoc w s.trace (malloc (pos 4))
    ∙ rw (h) refl

live_freed :
    (w : World) (f : String) (xs : List Arg) (s : Machine Sync)
    → is_null (block_of w s) ≡ false
    → live w (((s.trace ++ malloc (pos 4) ∷ []) ++ driver f xs ∷ []) ++ free (block_of w s) ∷ [])
      ≡ live w s.trace
live_freed w f xs s h =
    live-snoc w ((s.trace ++ malloc (pos 4) ∷ []) ++ driver f xs ∷ []) (free (block_of w s))
    ∙ ap (remove (block_of w s)) (live_made w f xs s h)
    ∙ remove_same (block_of w s) (live w s.trace)

-- Where malloc returns a block, a `create` function of the three libraries has freed it again if the
-- handle could not be made; else the block is in use, besides those from before.
create_block :
    (w : World) (f : String) (xs : List Arg) (s : Machine Sync)
    → is_null (w.answer s.trace (malloc (pos 4))) ≡ false
    → live w (after s (make w f xs s)).trace ≡ (
        if is_null (w.answer (s.trace ++ malloc (pos 4) ∷ []) (driver f xs))
        then live w s.trace
        else w.answer s.trace (malloc (pos 4)) ∷ live w s.trace)
unfolding make
create_block w f xs s h =
    rw (h) (elim (Bool-cases (is_null (w.answer (s.trace ++ malloc (pos 4) ∷ []) (driver f xs)))) [
      | inl e ↦ rw (e) (live_freed w f xs s h)
      | inr e ↦ rw (e) (live_made w f xs s h)
    ])
