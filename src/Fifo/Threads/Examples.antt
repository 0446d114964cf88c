-- ===== src/Fifo/Threads/Examples.antt =====
-- Two threads at a ring of two slots.
use vpu.Common.{ℕ, ◌≡◌, refl, List, [], ◌∷◌}
use vpu.Fifo.{PktNode, init_fifo}
use vpu.Fifo.Threads.{
  quiet, put, got, put_step, get_step, get_access, noted, Turn, capture, worker, turn, run,
  init_threads,
}
use vpu.Fifo.Threads.Held.{Held}

abbrev packet : ℕ → PktNode
packet b = record { pkt = b ∷ []; pkt_len = 1 }

-- The second packet comes in while the first one is taken out, and a third one while `out` waits to be stored.
abbrev schedule : List Turn
schedule =
    capture (packet 7)
    ∷ capture (packet 7)
    ∷ capture (packet 7)
    ∷ worker
    ∷ capture (packet 7)
    ∷ capture (packet 8)
    ∷ worker
    ∷ capture (packet 8)
    ∷ capture (packet 8)
    ∷ worker
    ∷ capture (packet 8)
    ∷ worker
    ∷ []

schedule_events :
    (run schedule (init_threads 2)).0
    ≡ quiet
      ∷ quiet
      ∷ put (7 ∷ [])
      ∷ quiet
      ∷ quiet
      ∷ quiet
      ∷ quiet
      ∷ quiet
      ∷ put (8 ∷ [])
      ∷ got (7 ∷ [])
      ∷ quiet
      ∷ quiet
      ∷ []
unfolding run turn put_step get_step get_access noted init_threads init_fifo
schedule_events = refl
