-- ===== src/Worker/Inv.antt =====
-- What every lane of src/vpu_worker.c keeps: a valid ring, whose packets are of calls of its worker.
use vpu.Common.{
  ℕ, zero, suc, ◌≤◌, ◌<◌, ◌≡◌, ◌⊎◌, inl, inr, refl, ◌∙◌, ap, false, some, none, Option, List, [],
  ◌∷◌, ◌++◌, arith, leb, length, get_or, take, byte_at, get_or-set_self, get_or-set_ne, Bool-cases,
  ◌==◌, ==→eq, not_==→ne,
}
use mathlib.Core.Path.{subst}
use vpu.Fifo.{
  PktFifo, PktBuf, PktNode, NodeRef, stored, zero_buf, init_fifo, pkt_fifo_put, filled, after_put,
  after_get, oldest,
}
use vpu.Fifo.Inv.{
  IsValid, init_fifo-slot, init_fifo-IsValid, pkt_fifo_put-IsValid, after_get-IsValid,
}
use vpu.Voice.Parser.{read_le64}
use vpu.Voice.Slots.{worker_of}
use vpu.Worker.{Lane, Captured, bytes_of}

-- A slot that was filled holds a packet of a call of worker `i`.
abbrev pub Mine : ℕ → PktBuf → Type 0
Mine i b = (b.pkt_len ≡ 0) ⊎ (worker_of (read_le64 b.pkt 20) ≡ i)

-- So does the slot of a fetched node.
abbrev pub HeldMine : ℕ → PktFifo → Option NodeRef → Type 0
HeldMine i f none = Unit {0}
HeldMine i f (some node) = (node.pkt_len ≡ 0) ⊎ (worker_of (read_le64 (bytes_of f node) 20) ≡ i)

pub record LaneOk (i : ℕ) (l : Lane) : Type 0 where
  pub ring : IsValid l.fifo
  pub slots : (j : ℕ) → Mine i (get_or l.fifo.pkt j zero_buf)
  pub taken : HeldMine i l.fifo l.held

byte_at-front :
    (n : ℕ) (xs ys : List ℕ) (j : ℕ)
    → j < n
    → n ≤ length xs
    → byte_at (take n xs ++ ys) j ≡ byte_at xs j
byte_at-front zero xs ys j h k = absurd (omega arith)
byte_at-front (suc n) [] ys j h k = absurd (omega arith)
byte_at-front (suc n) (x ∷ xs) ys zero h k = refl
byte_at-front (suc n) (x ∷ xs) ys (suc j) h k = byte_at-front n xs ys j (omega arith) (omega arith)

read_le64-front :
    (n : ℕ) (xs ys : List ℕ)
    → 28 ≤ n
    → n ≤ length xs
    → read_le64 (take n xs ++ ys) 20 ≡ read_le64 xs 20
read_le64-front n xs ys h k =
    let at : (j : ℕ) → j < 28 → byte_at (take n xs ++ ys) j ≡ byte_at xs j =
      (λ j l. byte_at-front n xs ys j (omega arith) k) in
    rw (
      at 20 (omega arith),
      at 21 (omega arith),
      at 22 (omega arith),
      at 23 (omega arith),
      at 24 (omega arith),
      at 25 (omega arith),
      at 26 (omega arith),
      at 27 (omega arith),
    )

filled-Mine :
    (f : PktFifo) (node : PktNode)
    → Captured node
    → worker_of (read_le64 (filled f node).pkt 20) ≡ worker_of (read_le64 node.pkt 20)
filled-Mine f node c = ap worker_of (read_le64-front node.pkt_len node.pkt _ c.has_callid c.there)

in_range : (f : PktFifo) → IsValid f → f.count < f.size → f.in_pos < length f.pkt
in_range f v room = ground arith

-- what holds of the slot that a put fills and of every slot before it holds of every slot after it
put_slot :
    (P : PktBuf → Type 0) (f : PktFifo) (node : PktNode) (j : ℕ)
    → IsValid f
    → f.count < f.size
    → P (filled f node)
    → P (get_or f.pkt j zero_buf)
    → P (get_or (after_put f node).pkt j zero_buf)
put_slot P f node j v room p q = elim (Bool-cases (f.in_pos == j)) [
  | inl same ↦
      subst (λ k. P (get_or (after_put f node).pkt k zero_buf)) (==→eq _ _ same)
        (rw (get_or-set_self f.pkt f.in_pos (filled f node) zero_buf (in_range f v room)) p)
  | inr other ↦ rw (get_or-set_ne f.pkt f.in_pos j (filled f node) zero_buf (not_==→ne _ _ other)) q
]

put-HeldMine :
    (i : ℕ) (f : PktFifo) (node : PktNode)
    → IsValid f
    → f.count < f.size
    → worker_of (read_le64 (filled f node).pkt 20) ≡ i
    → (held : Option NodeRef) → HeldMine i f held
    → HeldMine i (after_put f node) held
put-HeldMine i f node v room w none m = tt
put-HeldMine i f node v room w (some r) (inl e) = inl e
put-HeldMine i f node v room w (some r) (inr e) =
    inr (put_slot (λ b. worker_of (read_le64 b.pkt 20) ≡ i) f node r.slot v room w e)

pub put-LaneOk :
    (i : ℕ) (l : Lane) (node : PktNode)
    → LaneOk i l
    → Captured node
    → worker_of (read_le64 node.pkt 20) ≡ i
    → l.fifo.count < l.fifo.size
    → pkt_fifo_put l.fifo node ≡ some (stored, after_put l.fifo node)
    → LaneOk i (record l { fifo = after_put l.fifo node })
put-LaneOk i l node ok c w room e = record {
  ring = (pkt_fifo_put-IsValid l.fifo node ok.ring e).0;
  slots = λ j.
      put_slot (Mine i) l.fifo node j ok.ring room (inr (filled-Mine l.fifo node c ∙ w))
        (ok.slots j);
  taken = put-HeldMine i l.fifo node ok.ring room (filled-Mine l.fifo node c ∙ w) l.held ok.taken;
}

pub get-LaneOk :
    (i : ℕ) (l : Lane)
    → leb l.fifo.count 0 ≡ false
    → LaneOk i l
    → LaneOk i (record { fifo = after_get l.fifo; held = some (oldest l.fifo) })
get-LaneOk i l some_left ok = record {
  ring = after_get-IsValid l.fifo some_left ok.ring;
  slots = ok.slots;
  taken = ok.slots l.fifo.out_pos;
}

pub drop-LaneOk : (i : ℕ) (l : Lane) → LaneOk i l → LaneOk i (record l { held = none })
drop-LaneOk i l ok = record { ring = ok.ring; slots = ok.slots; taken = tt }

pub init_fifo-LaneOk :
    (i n : ℕ) → 0 < n → n < 2147483648 → LaneOk i (record { fifo = init_fifo n; held = none })
init_fifo-LaneOk i n h k = record {
  ring = init_fifo-IsValid n h k;
  slots = λ j. inl (init_fifo-slot n j);
  taken = tt;
}
