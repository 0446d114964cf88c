-- ===== src/Fifo/Examples.antt =====
-- A ring of three slots, at which the theorems on src/pkt_fifo.c are applied, and tests.
use vpu.Common.{ℕ, ◌≡◌, refl, ◌⊎◌, some, [], ◌∷◌, arith}
use vpu.Fifo.{
  PktFifo, PktBuf, PktNode, NodeRef, stored, no_space, fetched, no_data, pkt_fifo_put, pkt_fifo_get,
  deref, oldest, after_get, after_put,
}
use vpu.Fifo.Inv.{IsValid, pkt_fifo_put-IsValid}
use vpu.Fifo.Refine.{contents, enqueue, pkt_fifo_put_refines, pkt_fifo_get_refines}
use vpu.Fifo.Alias.{get-put_overwrites}

abbrev buf : ℕ → PktBuf
buf b = record { pkt = b ∷ b ∷ []; pkt_len = 2 }

-- packets 8 and 9, round the end of the storage
abbrev wrapped : PktFifo
wrapped = record { in_pos = 1; out_pos = 2; size = 3; count = 2; pkt = buf 9 ∷ buf 7 ∷ buf 8 ∷ [] }

abbrev full : PktFifo
full = record { in_pos = 2; out_pos = 2; size = 3; count = 3; pkt = buf 9 ∷ buf 7 ∷ buf 8 ∷ [] }

abbrev node : PktNode
node = record { pkt = 5 ∷ 6 ∷ []; pkt_len = 2 }

wrapped-IsValid : IsValid wrapped
wrapped-IsValid = omega arith

full-IsValid : IsValid full
full-IsValid = omega arith

put_full_test : pkt_fifo_put full node ≡ some (no_space, full)
unfolding pkt_fifo_put
put_full_test = refl

put_eq : pkt_fifo_put wrapped node ≡ some (stored, after_put wrapped node)
unfolding pkt_fifo_put
put_eq = refl

pkt_fifo_put-IsValid_test : IsValid (after_put wrapped node) × ((after_put wrapped node).size ≡ 3)
pkt_fifo_put-IsValid_test = pkt_fifo_put-IsValid wrapped node wrapped-IsValid put_eq

pkt_fifo_put_refines_example :
    (g : PktFifo) × (pkt_fifo_put wrapped node
      ≡ some ((enqueue 3 (contents wrapped) (5 ∷ 6 ∷ [])).0, g))
    × (contents g ≡ (enqueue 3 (contents wrapped) (5 ∷ 6 ∷ [])).1)
pkt_fifo_put_refines_example =
    pkt_fifo_put_refines wrapped node wrapped-IsValid (omega arith) (omega arith)

pkt_fifo_get_refines_example :
    ((contents wrapped ≡ []) × (pkt_fifo_get wrapped ≡ (no_data, wrapped)))
    ⊎ ((node : NodeRef) × ((pkt_fifo_get wrapped).0 ≡ fetched node)
        × (contents wrapped
            ≡ deref (pkt_fifo_get wrapped).1 node ∷ contents (pkt_fifo_get wrapped).1))
pkt_fifo_get_refines_example = pkt_fifo_get_refines wrapped wrapped-IsValid

get_wrapped : pkt_fifo_get wrapped ≡ (fetched (oldest wrapped), after_get wrapped)
unfolding pkt_fifo_get
get_wrapped = refl

put_after_get :
    pkt_fifo_put (after_get wrapped) node ≡ some (stored, after_put (after_get wrapped) node)
unfolding pkt_fifo_put
put_after_get = refl

get_full : pkt_fifo_get full ≡ (fetched (oldest full), after_get full)
unfolding pkt_fifo_get
get_full = refl

get-put_overwrites_example :
    (h : PktFifo) × (pkt_fifo_put (after_get full) node ≡ some (stored, h))
    × (deref h (oldest full) ≡ 5 ∷ 6 ∷ [])
get-put_overwrites_example =
    get-put_overwrites full node full-IsValid (omega arith) get_full (omega arith) (omega arith)
      (omega arith)
