-- ===== src/Fifo/Threads/Held.antt =====
-- What a shared ring holds while its two threads are inside `pkt_fifo_put` and `pkt_fifo_get` of
-- src/pkt_fifo.c.
use vpu.Common.{
  ℕ, zero, suc, ◌+◌, ◌^◌, ◌≤◌, ◌<◌, ◌≡◌, refl, ap, ◌∙◌, sym, List, [], ◌∷◌, ◌++◌, length, get_or,
  take, take-append_self,
}
use vpu.Fifo.{PktFifo, PktBuf, PktNode, zero_buf, step_pos}
use vpu.Fifo.Inv.{wrap_pos}
use vpu.Fifo.Refine.{window, frame}
use vpu.Fifo.Threads.{
  Putter, outside, copying, counting, stepping, crashed, Getter, waiting, reading, taking, moving,
  Threads, node_bytes,
}
use vpu.Fifo.Threads.Queue.{Queue}

-- the oldest packet that the worker has not taken, and the place behind the last packet that is counted
abbrev pub base_of : Getter → PktFifo → ℕ
base_of waiting f = f.out_pos
base_of (reading o) f = f.out_pos
base_of (taking r) f = f.out_pos
base_of (moving r) f = step_pos r.slot f.size

abbrev pub next_of : Putter → PktFifo → ℕ
next_of outside f = f.in_pos
next_of (copying i n) f = f.in_pos
next_of (counting i n) f = f.in_pos
next_of (stepping i) f = step_pos i f.size
next_of crashed f = f.in_pos

-- A ring holds the packets of a queue between these two places.
pub record Ring (f : PktFifo) (base next : ℕ) (q : Queue) : Type 0 where
  pub storage : f.size ≤ length f.pkt
  pub small : f.size < 2 ^ 31
  pub base_in : base < f.size
  pub next_here : next ≡ wrap_pos (base + length q) f.size
  pub counted : f.count ≡ length q
  pub bound : length q ≤ f.size
  pub holds : window f.pkt f.size base (length q) ≡ q

-- What a packet that is captured is relied on to be: it fits a slot, and has the bytes that it claims.
pub record NodeOk (n : PktNode) : Type 0 where
  pub fits : n.pkt_len ≤ 2048
  pub there : n.pkt_len ≤ length n.pkt

abbrev pub PutterOk : PktFifo → ℕ → Queue → Putter → Type 0
PutterOk f base q outside = Unit
PutterOk f base q (copying i n) = (i ≡ f.in_pos) × (length q < f.size) × NodeOk n
PutterOk f base q (counting i n) =
    (i ≡ f.in_pos)
    × (length q < f.size)
    × (window f.pkt f.size base (suc (length q)) ≡ q ++ (node_bytes n ∷ []))
PutterOk f base q (stepping i) = i ≡ f.in_pos
PutterOk f base q crashed = ⊥

abbrev pub GetterOk : PktFifo → Queue → Getter → Type 0
GetterOk f q waiting = f.out_pos < f.size
GetterOk f q (reading o) = (o ≡ f.out_pos) × (0 < length q)
GetterOk f q (taking r) =
    (r.slot ≡ f.out_pos) × (0 < length q) × (r.pkt_len ≡ (get_or f.pkt f.out_pos zero_buf).pkt_len)
GetterOk f q (moving r) = r.slot ≡ f.out_pos

pub record Held (t : Threads) (q : Queue) : Type 0 where
  pub ring : Ring t.fifo (base_of t.getter t.fifo) (next_of t.putter t.fifo) q
  pub putter_ok : PutterOk t.fifo (base_of t.getter t.fifo) q t.putter
  pub getter_ok : GetterOk t.fifo q t.getter

-- The last packet of a window taken away.
pub take-window :
    (pkt : List PktBuf) (size h n : ℕ) → take n (window pkt size h (suc n)) ≡ window pkt size h n
take-window pkt size h zero = refl
take-window pkt size h (suc n) =
    ap (λ l. frame (get_or pkt h zero_buf) ∷ l) (take-window pkt size (step_pos h size) n)

-- Where a window has one packet more than a queue, it holds the queue without it.
pub window-init :
    (pkt : List PktBuf) (size h : ℕ) (q : Queue) (x : List ℕ)
    → window pkt size h (suc (length q)) ≡ q ++ (x ∷ [])
    → window pkt size h (length q) ≡ q
window-init pkt size h q x e =
    sym (take-window pkt size h (length q)) ∙ ap (take (length q)) e ∙ take-append_self q (x ∷ [])
