-- ===== src/Fifo.antt =====
-- The packet rings between the capture thread and the workers: src/pkt_fifo.h and src/pkt_fifo.c.
-- A ring is a record; a function that updates `*fifo` returns the new ring beside its C result.
-- `none` stands for a memcpy outside an object, for which C gives no result.
-- `pkt_fifo_get` hands out a pointer into the ring, so its node holds the index of a slot.
pub mod Inv
pub mod Refine
pub mod Alias
pub mod Threads
mod Examples
use vpu.Common.{
  ℕ, ◌+◌, ◌-◌, ◌%◌, ◌^◌, Bool, ◌&&◌, Option, none, some, List, [], ◌∷◌, ◌++◌, ltb, leb,
  if◌then◌else◌, length, get_or, set, take, drop, replicate,
}

abbrev pub pkt_fifo_size : ℕ
pkt_fifo_size = 20480

abbrev pub worker_num : ℕ
worker_num = 8

abbrev pub pkt_size : ℕ
pkt_size = 2048

-- `pkt_node_t` as `pkt_fifo_put` reads it: the bytes that lie behind `pkt`, and the length field.
pub record PktNode : Type 0 where
  pub pkt : List ℕ
  pub pkt_len : ℕ

-- `pkt_buf_t`
pub record PktBuf : Type 0 where
  pub pkt : List ℕ
  pub pkt_len : ℕ

-- `pkt_fifo_t`; the field `in` of the source is `in_pos` here, and `out` is `out_pos`.
pub record PktFifo : Type 0 where
  pub in_pos : ℕ
  pub out_pos : ℕ
  pub size : ℕ
  pub count : ℕ
  pub pkt : List PktBuf

-- `pkt_node_t` as `pkt_fifo_get` fills it: a pointer to a slot of the ring, and a length.
pub record NodeRef : Type 0 where
  pub slot : ℕ
  pub pkt_len : ℕ

abbrev pub zero_buf : PktBuf
zero_buf = record { pkt = []; pkt_len = 0 }

-- One ring after the memset and the assignments of `init_pkt_fifo`, with `n` for PKT_FIFO_SIZE.
unfoldable pub init_fifo : ℕ → PktFifo
init_fifo n = record { in_pos = 0; out_pos = 0; size = n; count = 0; pkt = replicate n zero_buf }

unfoldable pub init_pkt_fifo : List PktFifo
unfolding init_fifo
init_pkt_fifo = replicate worker_num (init_fifo pkt_fifo_size)

-- memcpy over the front of a buffer that is long enough
abbrev pub copy_front : List ℕ → List ℕ → List ℕ
copy_front dst src = src ++ drop (length src) dst

-- the index behind `i`, as both functions step it
abbrev pub step_pos : ℕ → ℕ → ℕ
step_pos i size = let j = (i + 1) % 2 ^ 32 in if leb size j then 0 else j

-- The bytes copied come from the node, at most as many as it has, into a slot of 2048 bytes.
abbrev pub copy_fits : PktFifo → PktNode → Bool
copy_fits fifo node =
    leb node.pkt_len pkt_size
    && leb node.pkt_len (length node.pkt)
    && ltb fifo.in_pos (length fifo.pkt)

-- The slot after `memcpy(pkt[in].pkt, node->pkt, node->pkt_len)` and the store of the length.
abbrev pub filled : PktFifo → PktNode → PktBuf
filled fifo node = record {
  pkt = copy_front (get_or fifo.pkt fifo.in_pos zero_buf).pkt (take node.pkt_len node.pkt);
  pkt_len = node.pkt_len;
}

-- the C result of `pkt_fifo_put`
pub data PutResult : Type 0 where
  stored no_space : PutResult

-- the ring that a successful put leaves
abbrev pub after_put : PktFifo → PktNode → PktFifo
after_put fifo node = record fifo {
  in_pos = step_pos fifo.in_pos fifo.size;
  count = (fifo.count + 1) % 2 ^ 32;
  pkt = set fifo.pkt fifo.in_pos (filled fifo node);
}

unfoldable pub pkt_fifo_put : PktFifo → PktNode → Option (PutResult × PktFifo)
pkt_fifo_put fifo node =
    if leb fifo.size fifo.count
    then some (no_space, fifo)
    else if copy_fits fifo node
    then some (stored, after_put fifo node)
    else none

-- 0, -2 and -3; the -1 for a NULL argument has no counterpart, since both are always given.
pub data GetResult : Type 0 where
  fetched : NodeRef → GetResult
  no_data : GetResult
  bad_out : GetResult

-- the node that a successful get fills in, and the ring that it leaves
abbrev pub oldest : PktFifo → NodeRef
oldest fifo = record {
  slot = fifo.out_pos;
  pkt_len = (get_or fifo.pkt fifo.out_pos zero_buf).pkt_len;
}

abbrev pub after_get : PktFifo → PktFifo
after_get fifo = record fifo {
  count = (fifo.count + 2 ^ 32 - 1) % 2 ^ 32;
  out_pos = step_pos fifo.out_pos fifo.size;
}

unfoldable pub pkt_fifo_get : PktFifo → GetResult × PktFifo
pkt_fifo_get fifo =
    if leb fifo.count 0
    then (no_data, fifo)
    else if leb fifo.size fifo.out_pos
    then (bad_out, fifo)
    else (fetched (oldest fifo), after_get fifo)

-- What a worker reads through the node that it was given, when it reads it.
pub deref : PktFifo → NodeRef → List ℕ
deref fifo node = take node.pkt_len (get_or fifo.pkt node.slot zero_buf).pkt
