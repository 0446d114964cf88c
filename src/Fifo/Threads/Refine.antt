-- ===== src/Fifo/Threads/Refine.antt =====
-- Whatever the order in which the capture thread and the worker of a ring make their accesses in
-- src/pkt_fifo.c, what they see is a bounded queue.
use vpu.Common.{ℕ, ◌≡◌, List, [], ◌∷◌}
use vpu.Fifo.{PktFifo}
use vpu.Fifo.Threads.{Putter, Getter, Threads, Event, Turn, capture, worker}
use vpu.Fifo.Threads.Queue.{Queue, after, Allowed}
use vpu.Fifo.Threads.Held.{NodeOk, Held}

-- Neither thread moves the place of the other one.
abbrev SameOut : PktFifo → PktFifo × Putter × Event → Type 0
SameOut f (f', p, e) = (f'.out_pos ≡ f.out_pos) × (f'.size ≡ f.size)

abbrev SameIn : PktFifo → PktFifo × Getter × Event → Type 0
SameIn f (f', g, e) = (f'.in_pos ≡ f.in_pos) × (f'.size ≡ f.size)

-- What the schedule relies on: the packets that are captured.
abbrev pub TurnOk : Turn → Type 0
TurnOk (capture node) = NodeOk node
TurnOk worker = Unit

abbrev pub ScheduleOk : List Turn → Type 0
ScheduleOk [] = Unit
ScheduleOk (u ∷ us) = TurnOk u × ScheduleOk us

-- What a turn leaves of a ring of `size` places that holds `q`.
abbrev TurnKept : ℕ → Queue → Threads × Event → Type 0
TurnKept size q (t, e) = (t.fifo.size ≡ size) × Allowed size e q × Held t (after e q)
