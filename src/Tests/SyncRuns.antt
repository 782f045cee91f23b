-- ===== src/Tests/SyncRuns.antt =====
-- The libraries of components/FOS for queues, and those of components/HDW, over given answers.
use clios.Prelude.{false, ◌≡◌, refl, ℕ, List, [], ◌∷◌, some}
use clios.Prelude.Int.{ℤ, pos, negsuc}
use clios.Lua.{done, integer, udata_slot, int_slot, ◌>>=◌}
use clios.Driver.{World, Machine, Call, malloc, free, driver, open_socket, close_socket, int, bytes}
use clios.Fos.Sync.{Sync, int_bytes, queue_send, queue_receive}
use clios.Fos.Sync.Blocks.{send_call, receive_call, send_then_receive}
use clios.Hdw.Adc.{attenuation}
use clios.Hdw.Gpio.{pin_mask}

-- What was sent last.
abbrev last_sent : List Call → List ℕ
last_sent (driver f (int h ∷ bytes bs ∷ []) ∷ []) = bs
last_sent _ = []

-- malloc returns the block 64, every other call 0.
abbrev answer : Call → ℤ
answer (malloc n) = pos 64
answer (free p) = pos 0
answer (driver f xs) = pos 0
answer (open_socket f xs) = pos 3
answer (close_socket c) = pos 0

abbrev world : World
world = record {
  answer = λ calls c. answer c;
  stored = λ calls c. last_sent calls;
  exhausted = λ calls. false;
}

abbrev queue : Machine Sync
queue = record { own = record { handle = pos 9 }; trace = [] }

-- -7 goes through the queue.
send_then_receive_example :
    (queue_send world (udata_slot "queue" ∷ int_slot (negsuc 6) ∷ []) >>= λ _.
    queue_receive world (udata_slot "queue" ∷ []))
      queue
    ≡ done
        (integer (negsuc 6) ∷ [])
        (record queue { trace = send_call queue (int_bytes (negsuc 6)) ∷ receive_call queue ∷ [] })
send_then_receive_example = send_then_receive world queue "queue" (negsuc 6) (λ bs. refl)

-- The attenuation of the default 11.
attenuation_run : attenuation (pos 11) ≡ "ADC_ATTEN_DB_6"
unfolding attenuation
attenuation_run = refl

pin_mask_run : pin_mask (pos 33) ≡ some 8589934592
unfolding pin_mask
pin_mask_run = refl
