-- ===== src/Fifo/Alias.antt =====
-- The pointer that `pkt_fifo_get` of src/pkt_fifo.c hands to a worker, and the puts that follow before
-- the worker has read the packet behind it.
use vpu.Common.{◌≤◌, ◌<◌, ◌≡◌, some, take, length, arith, get_or-set_self, get_or-set_ne}
use vpu.Fifo.{
  PktFifo, PktNode, NodeRef, PutResult, stored, fetched, zero_buf, pkt_fifo_put, pkt_fifo_get,
  deref, filled, after_get, after_put,
}
use vpu.Fifo.Inv.{IsValid}
use vpu.Fifo.Refine.{frame-filled}

-- While the ring was not full before the get, the next put leaves the packet behind the handed-out
-- pointer as it was.
pub get-put_keeps :
    (f : PktFifo) (node : PktNode) {ref : NodeRef} {g h : PktFifo} {r : PutResult}
    → IsValid f
    → f.count < f.size
    → pkt_fifo_get f ≡ (fetched ref, g)
    → pkt_fifo_put g node ≡ some (r, h)
    → deref h ref ≡ deref g ref
unfolding pkt_fifo_get pkt_fifo_put deref
get-put_keeps f node v room e e' =
    ground (arith, get_or-set_ne f.pkt f.in_pos f.out_pos (filled f node) zero_buf)

-- When the ring was full, the get frees the very slot that its pointer leads to: a put of a packet of
-- the same length then succeeds and replaces what the worker is about to read by the new packet.
pub get-put_overwrites :
    (f : PktFifo) (node : PktNode) {ref : NodeRef} {g : PktFifo}
    → IsValid f
    → f.count ≡ f.size
    → pkt_fifo_get f ≡ (fetched ref, g)
    → node.pkt_len ≤ 2048
    → node.pkt_len ≤ length node.pkt
    → node.pkt_len ≡ ref.pkt_len
    → (h : PktFifo) × (pkt_fifo_put g node ≡ some (stored, h))
      × (deref h ref ≡ take node.pkt_len node.pkt)
unfolding pkt_fifo_get pkt_fifo_put deref
get-put_overwrites f node {ref} {g} v full e fits src same = (
  after_put (after_get f) node,
  ground arith,
  ground (
    arith,
    get_or-set_self f.pkt f.out_pos (filled (after_get f) node) zero_buf,
    frame-filled (after_get f) node,
  ),
)
