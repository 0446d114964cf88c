-- ===== src/Queue/Ops.antt =====
-- The functions of src/fax_queue.c do on the chain of nodes what a first-in-first-out queue does.
use vpu.Common.{
  ℕ, zero, suc, ◌+◌, ◌-◌, ◌≡◌, ◌≢◌, refl, sym, Option, ne→not_==, ◌∙◌, ap, true, false, none, some,
  List, [], ◌∷◌, ◌++◌, ◌==◌, if◌then◌else◌, length, length-append, arith,
}
use vpu.Queue.{
  Ptr, null, Heap, Queue, write, next_of, walk, link_at, en_queue, fetch_phead, free_nodes,
  destroy_queue,
}
use vpu.Queue.Chain.{Chain, nil, cons, Holds, has, walk-Last, next_of-ok, frame-write}

pub en_queue-walk :
    (queue : Queue) (new : Ptr) (h : Heap) {p : Ptr}
    → walk (queue.len - 1) h queue.phead ≡ some p
    → en_queue queue new h ≡ link_at queue new h p
unfolding en_queue
en_queue-walk queue new h e = rw (e, en_queue)

pub link_at-node :
    (queue : Queue) (new : Ptr) (h : Heap) (p q : Ptr)
    → p ≢ null
    → h p ≡ some q
    → link_at queue new h p ≡ some (record queue { len = queue.len + 1 }, write h p (some new))
unfolding link_at
link_at-node queue new h p q ne e =
    let nz : (p == null) ≡ false = ground arith in rw (nz, next_of-ok h p ne e)

apart : (a b : Ptr) (ps : List Ptr) → has a ps ≡ false → has b ps ≡ true → a ≢ b
apart a b ps out inside e = absurd (true_not_false (sym inside ∙ ap (λ x. has x ps) (sym e) ∙ out))
  where
    true_not_false : true ≡ false → ⊥
    true_not_false h = ground arith

write_elsewhere : (h : Heap) (p : Ptr) (c : Option Ptr) (a : Ptr) → a ≢ p → write h p c a ≡ h a
unfolding write
write_elsewhere h p c a ne = let e : (a == p) ≡ false = ne→not_== _ _ ne in rw e refl

en_queue-Chain :
    (n : ℕ) {h : Heap} {p : Ptr} {ps : List Ptr} (new : Ptr)
    → Chain h null p ps
    → n ≡ length ps
    → new ≢ null
    → has new ps ≡ false
    → h new ≡ some null
    → (queue : Queue) × (g : Heap) × (en_queue (record { phead = p; len = n }) new h
        ≡ some (queue, g))
      × Holds g queue (ps ++ (new ∷ []))
      × ((a : Ptr) → has a ps ≡ false → g a ≡ h a)
unfolding link_at walk
en_queue-Chain zero {h} new nil len ne out e = (
  record { phead = new; len = 1 },
  h,
  en_queue-walk (record { phead = null; len = 0 }) new h refl,
  record { chain = cons ne e refl nil; count = refl },
  λ a out'. refl,
)
en_queue-Chain zero new (cons ne' e' fresh s) len ne out e = absurd (omega arith)
en_queue-Chain (suc n) new nil len ne out e = absurd (omega arith)
en_queue-Chain (suc n) {h} new (cons {p} {ps} ne' e' fresh s) len ne out e =
    let (last, w, l) = walk-Last n (cons ne' e' fresh s) (omega arith) in
    let rounds : suc n - 1 ≡ n = omega arith in
    (
      record { phead = p; len = suc n + 1 },
      write h last (some new),
      en_queue-walk (record { phead = p; len = suc n }) new h (ap (λ k. walk k h p) rounds ∙ w)
          ∙ link_at-node (record { phead = p; len = suc n }) new h last null l.ne_null l.ends,
      record { chain = l.link new ne out e; count = omega (arith, length-append ps (new ∷ [])) },
      λ a out'. write_elsewhere h last (some new) a (apart a last (p ∷ ps) out' l.here),
    )

-- `EN_QUEUE` as below, and no node outside the queue changes.
pub en_queue_frames :
    (queue : Queue) (h : Heap) (ps : List Ptr) (new : Ptr)
    → Holds h queue ps
    → new ≢ null
    → has new ps ≡ false
    → h new ≡ some null
    → (queue' : Queue) × (g : Heap) × (en_queue queue new h ≡ some (queue', g))
      × Holds g queue' (ps ++ (new ∷ []))
      × ((a : Ptr) → has a ps ≡ false → g a ≡ h a)
en_queue_frames queue h ps new holds ne out e =
    en_queue-Chain queue.len new holds.chain holds.count ne out e

-- `EN_QUEUE` of a node outside the queue, with its `next` cleared, puts it behind the others. The walk
-- does not fault, and the cached length stays right.
pub en_queue_appends :
    (queue : Queue) (h : Heap) (ps : List Ptr) (new : Ptr)
    → Holds h queue ps
    → new ≢ null
    → has new ps ≡ false
    → h new ≡ some null
    → (queue' : Queue) × (g : Heap) × (en_queue queue new h ≡ some (queue', g))
      × Holds g queue' (ps ++ (new ∷ []))
en_queue_appends queue h ps new holds ne out e =
    let (queue', g, run, holds', frame) = en_queue_frames queue h ps new holds ne out e in
    (queue', g, run, holds')

fetch-Chain :
    (n : ℕ) {h : Heap} {p q : Ptr} {ps : List Ptr}
    → Chain h null p (q ∷ ps)
    → n ≡ suc (length ps)
    → (queue : Queue) × (fetch_phead (record { phead = p; len = n }) h
        ≡ some (q, queue, write h q (some null)))
      × Holds (write h q (some null)) queue ps
      × (write h q (some null) q ≡ some null)
      × (q ≢ null)
unfolding fetch_phead write
fetch-Chain n {h} (cons {p} {q} {ps} ne e fresh s) len =
    let nz : (p == null) ≡ false = ground arith in
    (
      record { phead = q; len = n - 1 },
      rw (nz, next_of-ok h p ne e),
      record { chain = frame-write p (some null) s fresh; count = omega arith },
      ground arith,
      ne,
    )

-- `FETCH_PHEAD` as below, with the one write that it makes.
pub fetch_phead_writes :
    (queue : Queue) (h : Heap) (p : Ptr) (ps : List Ptr)
    → Holds h queue (p ∷ ps)
    → (queue' : Queue) × (fetch_phead queue h ≡ some (p, queue', write h p (some null)))
      × Holds (write h p (some null)) queue' ps
      × (write h p (some null) p ≡ some null)
      × (p ≢ null)
fetch_phead_writes queue h p ps holds = fetch-Chain queue.len holds.chain holds.count

-- `FETCH_PHEAD` takes the first node off, clears its `next`, and leaves the rest of the queue with the
-- right length.
pub fetch_phead_takes :
    (queue : Queue) (h : Heap) (p : Ptr) (ps : List Ptr)
    → Holds h queue (p ∷ ps)
    → (queue' : Queue) × (g : Heap) × (fetch_phead queue h ≡ some (p, queue', g))
      × Holds g queue' ps
      × (g p ≡ some null)
fetch_phead_takes queue h p ps holds =
    let (queue', run, holds', ends, ne) = fetch_phead_writes queue h p ps holds in
    (queue', write h p (some null), run, holds', ends)

Chain-null : {h : Heap} {p : Ptr} → Chain h null p [] → p ≡ null
Chain-null nil = refl

-- On an empty queue `FETCH_PHEAD` returns NULL and changes nothing.
pub fetch_phead_empty :
    (queue : Queue) (h : Heap) → Holds h queue [] → fetch_phead queue h ≡ some (null, queue, h)
unfolding fetch_phead
fetch_phead_empty queue h holds =
    let nz : (queue.phead == null) ≡ true = ground (arith, Chain-null holds.chain) in
    let l : 0 ≡ queue.len = omega (arith, holds.count) in
    rw nz (ap (λ n. some (null, record queue { len = n }, h)) l)

free_step :
    (n : ℕ) (p : Ptr) (h : Heap) {q : Ptr}
    → next_of h p ≡ some q
    → free_nodes (suc n) p h ≡ free_nodes n q (write h p none)
unfolding free_nodes
free_step n p h e = rw (e, free_nodes)

free_nodes-Chain :
    (n : ℕ) {h : Heap} {p : Ptr} {ps : List Ptr}
    → Chain h null p ps
    → n ≡ length ps
    → (g : Heap) × (free_nodes n p h ≡ some g)
      × ((a : Ptr) → g a ≡ (if has a ps then none else h a))
unfolding free_nodes write
free_nodes-Chain zero {h} nil len = (h, refl, λ a. refl)
free_nodes-Chain zero (cons ne e fresh s) len = absurd (omega arith)
free_nodes-Chain (suc n) nil len = absurd (omega arith)
free_nodes-Chain (suc n) {h} (cons {p} ne e fresh s) len =
    let (g, run, gone) = free_nodes-Chain n (frame-write p none s fresh) (omega arith) in
    (g, free_step n p h (next_of-ok h p ne e) ∙ run, λ a. ground (arith, gone a))

-- `DESTROY_QUEUE` frees exactly the nodes of the queue: none is missed, none is freed twice, and no
-- other address changes.
pub destroy_queue_frees :
    (queue : Queue) (h : Heap) (ps : List Ptr)
    → Holds h queue ps
    → (g : Heap) × (destroy_queue queue h ≡ some g)
      × ((a : Ptr) → g a ≡ (if has a ps then none else h a))
unfolding destroy_queue
destroy_queue_frees queue h ps holds = free_nodes-Chain queue.len holds.chain holds.count
