-- ===== src/Fifo/Inv.antt =====
-- The representation invariant of `pkt_fifo_t` (src/pkt_fifo.c), kept by both functions.
use vpu.Common.{
  replicate, get_or, refl, zero, suc, ℕ, ◌+◌, ◌-◌, ◌^◌, ◌≤◌, ◌<◌, ◌≡◌, some, arith, length,
  length-set, length-replicate, ltb, if◌then◌else◌, leb, false,
}
use vpu.Fifo.{
  fetched, no_data, oldest, after_get, PktFifo, PktNode, PutResult, init_fifo, pkt_fifo_put,
  pkt_fifo_get, filled, zero_buf,
}

-- where the next packet goes, counted from the oldest
abbrev pub wrap_pos : ℕ → ℕ → ℕ
wrap_pos i size = if ltb i size then i else i - size

pub record IsValid (f : PktFifo) : Type 0 where
  pub storage : f.size ≤ length f.pkt
  pub small : f.size < 2 ^ 31
  pub out_in : f.out_pos < f.size
  pub count_in : f.count ≤ f.size
  pub in_here : f.in_pos ≡ wrap_pos (f.out_pos + f.count) f.size

-- A ring of `n` slots is valid once `init_pkt_fifo` has set it up.
pub init_fifo-IsValid : (n : ℕ) → 0 < n → n < 2 ^ 31 → IsValid (init_fifo n)
unfolding init_fifo
init_fifo-IsValid n h k = ground (arith, length-replicate n zero_buf)

-- Whatever `pkt_fifo_put` answers, a valid ring stays valid and keeps its size.
pub pkt_fifo_put-IsValid :
    (f : PktFifo) (node : PktNode) {r : PutResult} {g : PktFifo}
    → IsValid f
    → pkt_fifo_put f node ≡ some (r, g)
    → IsValid g × (g.size ≡ f.size)
unfolding pkt_fifo_put
pkt_fifo_put-IsValid f node v e = ground (arith, length-set f.pkt f.in_pos (filled f node))

-- Whatever `pkt_fifo_get` answers, a valid ring stays valid and keeps its size.
pub pkt_fifo_get-IsValid :
    (f : PktFifo) → IsValid f → IsValid (pkt_fifo_get f).1 × ((pkt_fifo_get f).1.size ≡ f.size)
unfolding pkt_fifo_get
pkt_fifo_get-IsValid f v = ground arith

-- what a get does to a valid ring, in one test
pub get_total :
    (f : PktFifo)
    → IsValid f
    → pkt_fifo_get f ≡ (if leb f.count 0 then (no_data, f) else (fetched (oldest f), after_get f))
unfolding pkt_fifo_get
get_total f v = ground arith

pub after_get-IsValid : (f : PktFifo) → leb f.count 0 ≡ false → IsValid f → IsValid (after_get f)
after_get-IsValid f some_left v = ground arith

pub init_fifo-empty : (n : ℕ) → (init_fifo n).count ≡ 0
unfolding init_fifo
init_fifo-empty n = refl

pub init_fifo-slot : (n j : ℕ) → (get_or (init_fifo n).pkt j zero_buf).pkt_len ≡ 0
unfolding init_fifo
init_fifo-slot n j = get_or-replicate_self n j
  where
    get_or-replicate_self : (k i : ℕ) → (get_or (replicate k zero_buf) i zero_buf).pkt_len ≡ 0
    get_or-replicate_self zero i = refl
    get_or-replicate_self (suc k) zero = refl
    get_or-replicate_self (suc k) (suc i) = get_or-replicate_self k i
