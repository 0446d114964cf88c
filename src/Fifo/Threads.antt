-- ===== src/Fifo/Threads.antt =====
-- `pkt_fifo_put` and `pkt_fifo_get` of src/pkt_fifo.c cut into their accesses to the shared ring, as the
-- capture thread and the worker of a ring run them at the same time. A schedule says whose turn it is; the
-- atomic operations on `count` are one access each, and so is the memcpy, since nobody else
-- reads the slot that it fills.
pub mod Queue
pub mod Held
pub mod Puts
pub mod Gets
pub mod Refine
mod Examples
use vpu.Common.{
  ℕ, ◌+◌, ◌-◌, ◌%◌, ◌^◌, Option, none, some, List, [], ◌∷◌, leb, if◌then◌else◌, get_or, set, take,
}
use vpu.Fifo.{PktFifo, PktNode, NodeRef, init_fifo, step_pos, copy_fits, filled, zero_buf}

-- Where the capture thread stands in `pkt_fifo_put`, with its local `in` and the node: not inside, before the
-- memcpy, before `atomic32_add`, before the store to `fifo->in`, or behind a memcpy out of bounds.
pub data Putter : Type 0 where
  outside : Putter
  copying : ℕ → PktNode → Putter
  counting : ℕ → PktNode → Putter
  stepping : ℕ → Putter
  crashed : Putter

-- Where the worker stands in `pkt_fifo_get`: not inside, with its local `out` before the reads of the
-- slot, before `atomic32_sub`, or before the store to `fifo->out`.
pub data Getter : Type 0 where
  waiting : Getter
  reading : ℕ → Getter
  taking : NodeRef → Getter
  moving : NodeRef → Getter

pub record Threads : Type 0 where
  pub fifo : PktFifo
  pub putter : Putter
  pub getter : Getter

-- What an access decides: nothing, that the packet of these bytes is in, that there is no space, that the worker
-- has been given a pointer that leads to these bytes now, that there is no data, or the -3 of an `out` behind the ring.
pub data Event : Type 0 where
  quiet full empty bad : Event
  put got : List ℕ → Event

-- the bytes that a node claims, and those that a slot holds
abbrev pub node_bytes : PktNode → List ℕ
node_bytes node = take node.pkt_len node.pkt

abbrev pub slot_bytes : PktFifo → NodeRef → List ℕ
slot_bytes f r = take r.pkt_len (get_or f.pkt r.slot zero_buf).pkt

-- the next access of the capture thread; `node` is that of its next packet
unfoldable pub put_step : PktNode → PktFifo → Putter → PktFifo × Putter × Event
put_step node f outside =
    if leb f.size f.count then (f, outside, full) else (f, copying f.in_pos node, quiet)
put_step node f (copying i n) =
    if copy_fits (record f { in_pos = i }) n
    then (record f { pkt = set f.pkt i (filled (record f { in_pos = i }) n) }, counting i n, quiet)
    else (f, crashed, quiet)
put_step node f (counting i n) =
    (record f { count = (f.count + 1) % 2 ^ 32 }, stepping i, put (node_bytes n))
put_step node f (stepping i) = (record f { in_pos = step_pos i f.size }, outside, quiet)
put_step node f crashed = (f, crashed, quiet)

-- What an access of the worker decides: nothing, that there is no data, the -3 of an `out` behind the ring, or
-- that the caller gets the pointer to a slot, with a length.
pub data Handed : Type 0 where
  nothing no_data out_of_ring : Handed
  handed : NodeRef → Handed

-- the next access of the worker
unfoldable pub get_access : PktFifo → Getter → PktFifo × Getter × Handed
get_access f waiting =
    if leb f.count 0
    then (f, waiting, no_data)
    else if leb f.size f.out_pos
    then (f, waiting, out_of_ring)
    else (f, reading f.out_pos, nothing)
get_access f (reading o) =
    (f, taking (record { slot = o; pkt_len = (get_or f.pkt o zero_buf).pkt_len }), nothing)
get_access f (taking r) = (record f { count = (f.count + 2 ^ 32 - 1) % 2 ^ 32 }, moving r, handed r)
get_access f (moving r) = (record f { out_pos = step_pos r.slot f.size }, waiting, nothing)

-- What the specification notes of it: of a pointer, the bytes that it leads to at that moment. The worker itself reads
-- them later, when a put may have replaced them already (Fifo/Alias).
unfoldable pub noted : PktFifo → Handed → Event
noted f nothing = quiet
noted f no_data = empty
noted f out_of_ring = bad
noted f (handed r) = got (slot_bytes f r)

-- an access of the worker, with what is noted of it
unfoldable pub get_step : PktFifo → Getter → PktFifo × Getter × Event
get_step f g = let (f', g', e) = get_access f g in (f', g', noted f e)

-- Whose turn it is.
pub data Turn : Type 0 where
  capture : PktNode → Turn
  worker : Turn

unfoldable pub turn : Turn → Threads → Threads × Event
turn (capture node) t =
    let (f, p, e) = put_step node t.fifo t.putter in (record t { fifo = f; putter = p }, e)
turn worker t = let (f, g, e) = get_step t.fifo t.getter in (record t { fifo = f; getter = g }, e)

-- the events of a schedule, and the state behind it
unfoldable pub run : List Turn → Threads → List Event × Threads
run [] t = ([], t)
run (u ∷ us) t = let (t1, e) = turn u t in let (es, t2) = run us t1 in (e ∷ es, t2)

-- the ring of `n` slots behind `init_pkt_fifo`, with no thread inside
unfoldable pub init_threads : ℕ → Threads
init_threads n = record { fifo = init_fifo n; putter = outside; getter = waiting }
