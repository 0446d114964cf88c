-- ===== src/Fifo/Refine.antt =====
-- A valid ring of src/pkt_fifo.c behaves as a bounded queue of the packets put into it.
use vpu.Common.{
  take-append_self, ℕ, zero, suc, ◌+◌, ◌-◌, ◌≤◌, ◌<◌, ◌≡◌, ◌⊎◌, ◌%◌, refl, ◌∙◌, ap, some, List, [],
  ◌∷◌, ◌++◌, arith, length, get_or, set, take, drop, leb, if◌then◌else◌, false, get_or-set_self,
  get_or-set_ne, length-take, Bool-cases, inl, inr,
}
use mathlib.Core.Path.{ap₂}
use vpu.Fifo.{
  PktFifo, PktBuf, PktNode, NodeRef, PutResult, stored, no_space, fetched, no_data, zero_buf,
  pkt_fifo_put, pkt_fifo_get, deref, filled, after_put, copy_front, step_pos,
}
use vpu.Fifo.Inv.{IsValid, wrap_pos}

-- the packet that a slot holds
abbrev pub frame : PktBuf → List ℕ
frame b = take b.pkt_len b.pkt

-- the packets of `n` slots from position `h` on
abbrev pub window : List PktBuf → ℕ → ℕ → ℕ → List (List ℕ)
window pkt size h zero = []
window pkt size h (suc n) = frame (get_or pkt h zero_buf) ∷ window pkt size (step_pos h size) n

-- What a ring holds, oldest first.
abbrev pub contents : PktFifo → List (List ℕ)
contents f = window f.pkt f.size f.out_pos f.count

-- The abstract queue: a put appends, unless `size` packets wait already.
abbrev pub Queue : Type 0
Queue = List (List ℕ)

unfoldable pub enqueue : ℕ → Queue → List ℕ → PutResult × Queue
enqueue size q x = if leb size (length q) then (no_space, q) else (stored, q ++ (x ∷ []))

pub length-window : (pkt : List PktBuf) (size h n : ℕ) → length (window pkt size h n) ≡ n
length-window pkt size h zero = refl
length-window pkt size h (suc n) = ap suc (length-window pkt size (step_pos h size) n)

-- the slot that a put fills holds the first `pkt_len` bytes of the node
pub frame-filled :
    (f : PktFifo) (node : PktNode)
    → node.pkt_len ≤ length node.pkt
    → frame (filled f node) ≡ take node.pkt_len node.pkt
frame-filled f node h =
    let src = take node.pkt_len node.pkt in
    let e : node.pkt_len ≡ length src = omega (arith, length-take node.pkt_len node.pkt) in
    ap (λ n. take n (copy_front (get_or f.pkt f.in_pos zero_buf).pkt src)) e
    ∙ take-append_self src (drop (length src) (get_or f.pkt f.in_pos zero_buf).pkt)

-- Filling the slot behind a window that is not full extends the window by that slot.
pub window-set :
    (pkt : List PktBuf) (size : ℕ) (b : PktBuf) (n h i : ℕ)
    → size ≤ length pkt
    → size < 2147483648
    → h < size
    → n < size
    → i ≡ wrap_pos (h + n) size
    → window (set pkt i b) size h (suc n) ≡ window pkt size h n ++ (frame b ∷ [])
window-set pkt size b zero h i st sm hh hn e =
    let e' : i ≡ h = ground arith in
    rw e' (ap (λ x. frame x ∷ []) (get_or-set_self pkt h b zero_buf (omega arith)))
window-set pkt size b (suc n) h i st sm hh hn e =
    ap₂ (λ x l. frame x ∷ l) (get_or-set_ne pkt i h b zero_buf (ground arith))
      (window-set pkt size b n (step_pos h size) i st sm (ground arith) (omega arith)
        (ground arith))

put-room :
    (f : PktFifo) (node : PktNode)
    → IsValid f
    → f.count < f.size
    → node.pkt_len ≤ length node.pkt
    → contents (after_put f node) ≡ contents f ++ (take node.pkt_len node.pkt ∷ [])
put-room f node v room src =
    let e : (f.count + 1) % 4294967296 ≡ suc f.count = omega arith in
    let pkt = set f.pkt f.in_pos (filled f node) in
    ap (λ n. window pkt f.size f.out_pos n) e
    ∙ window-set f.pkt f.size (filled f node) f.count f.out_pos f.in_pos v.storage v.small v.out_in
        room v.in_here
    ∙ ap (λ x. contents f ++ (x ∷ [])) (frame-filled f node src)

pub put_total :
    (f : PktFifo) (node : PktNode)
    → IsValid f
    → node.pkt_len ≤ 2048
    → node.pkt_len ≤ length node.pkt
    → pkt_fifo_put f node
      ≡ some (if leb f.size f.count then (no_space, f) else (stored, after_put f node))
unfolding pkt_fifo_put
put_total f node v fits src = ground arith

-- On a valid ring, and for a packet that fits a slot and whose node has the bytes that it claims, a
-- put makes no access out of bounds, answers as the bounded queue does, and leaves the ring holding
-- that queue's packets.
pub pkt_fifo_put_refines :
    (f : PktFifo) (node : PktNode)
    → IsValid f
    → node.pkt_len ≤ 2048
    → node.pkt_len ≤ length node.pkt
    → (g : PktFifo) × (pkt_fifo_put f node
        ≡ some ((enqueue f.size (contents f) (take node.pkt_len node.pkt)).0, g))
      × (contents g ≡ (enqueue f.size (contents f) (take node.pkt_len node.pkt)).1)
unfolding enqueue
pkt_fifo_put_refines f node v fits src =
    let len = length-window f.pkt f.size f.out_pos f.count in
    elim (Bool-cases (leb f.size f.count)) [
      | inl full ↦ (f, rw (len, put_total f node v fits src, full), rw (len, full))
      | inr room ↦ (
        after_put f node,
        rw (len, put_total f node v fits src, room),
        rw (len, room) (put-room f node v (ground arith) src),
      )
    ]

window_of_pos :
    (pkt : List PktBuf) (size h n : ℕ)
    → 0 < n
    → window pkt size h n
      ≡ frame (get_or pkt h zero_buf) ∷ window pkt size (step_pos h size) (n - 1)
window_of_pos pkt size h zero p = absurd (omega arith)
window_of_pos pkt size h (suc n) p = let e : suc n - 1 ≡ n = omega arith in rw e

-- A get of a valid ring answers "no data" exactly when the ring is empty, and then changes nothing;
-- else its node leads to the oldest packet, and the ring is left holding the others in their order.
pub pkt_fifo_get_refines :
    (f : PktFifo)
    → IsValid f
    → ((contents f ≡ []) × (pkt_fifo_get f ≡ (no_data, f)))
      ⊎ ((node : NodeRef) × ((pkt_fifo_get f).0 ≡ fetched node)
          × (contents f ≡ deref (pkt_fifo_get f).1 node ∷ contents (pkt_fifo_get f).1))
unfolding pkt_fifo_get deref
pkt_fifo_get_refines f v = elim (Bool-cases (leb f.count 0)) [
  | inl empty ↦
      inl (
        let e : f.count ≡ 0 = ground arith in ap (λ n. window f.pkt f.size f.out_pos n) e,
        rw empty,
      )
  | inr some_left ↦
      let inside : leb f.size f.out_pos ≡ false = ground arith in
      let e : f.count - 1 ≡ (f.count + 4294967296 - 1) % 4294967296 = ground arith in
      inr (
        record { slot = f.out_pos; pkt_len = (get_or f.pkt f.out_pos zero_buf).pkt_len },
        rw (some_left, inside),
        rw (some_left, inside)
            (window_of_pos f.pkt f.size f.out_pos f.count (ground arith)
              ∙ ap
                  (λ n.
                    frame (get_or f.pkt f.out_pos zero_buf)
                    ∷ window f.pkt f.size (step_pos f.out_pos f.size) n)
                  e),
      )
]
