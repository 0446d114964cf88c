-- ===== src/Queue/Filled.antt =====
-- INIT_QUEUE of src/fax_queue.c makes the queues that the other functions expect.
use vpu.Common.{
  ℕ, zero, suc, ◌+◌, ◌≡◌, ◌≢◌, ◌<◌, ◌≤◌, refl, ◌∙◌, Bool, true, false, ◌&&◌, not, Option, some,
  List, [], ◌∷◌, ◌==◌, ltb, length, take, if◌then◌else◌, Bool-cases, inl, inr, ne→not_==, ap, arith,
}
use vpu.Queue.{Ptr, null, Heap, Queue, write, fill_loop, init_queue}
use vpu.Queue.Chain.{Chain, nil, cons, Holds, has}

-- the addresses of the nodes that malloc has made
abbrev pub nodes : List Ptr → List Ptr
nodes [] = []
nodes (q ∷ qs) = let rest = nodes qs in if q == null then rest else q ∷ rest

-- malloc gives no address twice
abbrev pub distinct : List Ptr → Bool
distinct [] = true
distinct (q ∷ qs) = not (has q qs) && distinct qs

pub has-take : (a : Ptr) (n : ℕ) (ps : List Ptr) → has a ps ≡ false → has a (take n ps) ≡ false
has-take a zero ps out = refl
has-take a (suc n) [] out = refl
has-take a (suc n) (p ∷ ps) out = ground (arith, has-take a n ps)

length-took : (n : ℕ) (ps : List Ptr) → n ≤ length ps → length (take n ps) ≡ n
length-took zero ps le = refl
length-took (suc n) [] le = absurd (omega arith)
length-took (suc n) (p ∷ ps) le = ap suc (length-took n ps (omega arith))

nodes-node : (q : Ptr) (qs : List Ptr) → (q == null) ≡ false → nodes (q ∷ qs) ≡ q ∷ nodes qs
nodes-node q qs e = ground arith

nodes-null : (q : Ptr) (qs : List Ptr) → (q == null) ≡ true → nodes (q ∷ qs) ≡ nodes qs
nodes-null q qs e = ground arith

linked : Heap → Ptr → Ptr → Heap
linked h last q = write (write h q (some null)) last (some q)

counted : Queue → Queue
counted eq = record eq { len = eq.len + 1 }

fill_loop-null :
    (num : ℕ) (q : Ptr) (qs : List Ptr) (eq : Queue) (last : Ptr) (h : Heap)
    → (q == null) ≡ true
    → eq.len < num
    → fill_loop num (q ∷ qs) eq last h ≡ fill_loop num qs eq last h
unfolding fill_loop
fill_loop-null num q qs eq last h e lt =
    let more : ltb eq.len num ≡ true = ground arith in rw (e, more) refl

fill_loop-more :
    (num : ℕ) (q : Ptr) (qs : List Ptr) (eq : Queue) (last : Ptr) (h : Heap)
    → (q == null) ≡ false
    → (eq.phead == null) ≡ false
    → eq.len + 1 < num
    → fill_loop num (q ∷ qs) eq last h ≡ fill_loop num qs (counted eq) q (linked h last q)
unfolding fill_loop linked counted
fill_loop-more num q qs eq last h e head lt =
    let more : ltb (eq.len + 1) num ≡ true = ground arith in rw (e, head, more) refl

fill_loop-full :
    (num : ℕ) (q : Ptr) (qs : List Ptr) (eq : Queue) (last : Ptr) (h : Heap)
    → (q == null) ≡ false
    → (eq.phead == null) ≡ false
    → num ≤ eq.len + 1
    → fill_loop num (q ∷ qs) eq last h ≡ some (counted eq, linked h last q)
unfolding fill_loop linked counted
fill_loop-full num q qs eq last h e head le =
    let full : ltb (eq.len + 1) num ≡ false = ground arith in rw (e, head, full) refl

linked-here : (h : Heap) (last q : Ptr) → linked h last q last ≡ some q
unfolding linked write
linked-here h last q = ground arith

linked-new : (h : Heap) (last q : Ptr) → q ≢ last → linked h last q q ≡ some null
unfolding linked write
linked-new h last q ne = let e : (q == last) ≡ false = ne→not_== _ _ ne in rw e (ground arith)

linked-other : (h : Heap) (last q a : Ptr) → a ≢ last → a ≢ q → linked h last q a ≡ h a
unfolding linked write
linked-other h last q a ne ne' =
    let e : (a == last) ≡ false = ne→not_== _ _ ne in
    let e' : (a == q) ≡ false = ne→not_== _ _ ne' in rw (e, e') refl

-- Where the loop ends that still has `n` nodes to make, the last one made being `last`.
record Ends (n : ℕ) (fresh : List Ptr) (eq : Queue) (last : Ptr) (h : Heap)
    (o : Option (Queue × Heap)) : Type 0 where
  queue : Queue
  heap : Heap
  result : o ≡ some (queue, heap)
  phead : queue.phead ≡ eq.phead
  count : queue.len ≡ eq.len + n
  chain : Chain heap null last (last ∷ take n fresh)
  frame : (a : Ptr) → a ≢ last → has a fresh ≡ false → heap a ≡ h a

Ends-full :
    (num : ℕ) (q : Ptr) (qs : List Ptr) (eq : Queue) (last : Ptr) (h : Heap)
    → (q == null) ≡ false
    → (eq.phead == null) ≡ false
    → num ≤ eq.len + 1
    → last ≢ null
    → has last (nodes (q ∷ qs)) ≡ false
    → Ends 1 (nodes (q ∷ qs)) eq last h (fill_loop num (q ∷ qs) eq last h)
unfolding counted
Ends-full num q qs eq last h e head le ne out =
    let here : q ≢ last = ground arith in
    rw (nodes-node q qs e) record {
      queue = counted eq;
      heap = linked h last q;
      result = fill_loop-full num q qs eq last h e head le;
      phead = refl;
      count = refl;
      chain =
          cons ne (linked-here h last q) (ground arith)
            (cons (ground arith) (linked-new h last q here) refl nil);
      frame = λ a ne' out'. linked-other h last q a ne' (ground arith);
    }

Ends-more :
    (n num : ℕ) (q : Ptr) (qs : List Ptr) (eq : Queue) (last : Ptr) (h : Heap)
    → (q == null) ≡ false
    → (eq.phead == null) ≡ false
    → eq.len + 1 < num
    → last ≢ null
    → has last (nodes (q ∷ qs)) ≡ false
    → has q (nodes qs) ≡ false
    → Ends n
        (nodes qs)
        (counted eq)
        q
        (linked h last q)
        (fill_loop num qs (counted eq) q (linked h last q))
    → Ends (suc n) (nodes (q ∷ qs)) eq last h (fill_loop num (q ∷ qs) eq last h)
unfolding counted
Ends-more n num q qs eq last h e head lt ne out fresh r =
    let there : last ≢ q = ground arith in
    let behind : has last (nodes qs) ≡ false = ground arith in
    rw (nodes-node q qs e) record {
      queue = r.queue;
      heap = r.heap;
      result = fill_loop-more num q qs eq last h e head lt ∙ r.result;
      phead = r.phead;
      count = omega (arith, r.count);
      chain =
          cons ne (r.frame last there behind ∙ linked-here h last q)
            (ground (arith, has-take last n (nodes qs))) r.chain;
      frame = λ a ne' out'.
          r.frame a (ground arith) (ground arith) ∙ linked-other h last q a ne' (ground arith);
    }

Ends-null :
    (n num : ℕ) (q : Ptr) (qs : List Ptr) (eq : Queue) (last : Ptr) (h : Heap)
    → (q == null) ≡ true
    → eq.len < num
    → Ends n (nodes qs) eq last h (fill_loop num qs eq last h)
    → Ends n (nodes (q ∷ qs)) eq last h (fill_loop num (q ∷ qs) eq last h)
Ends-null n num q qs eq last h e lt r =
    rw (fill_loop-null num q qs eq last h e lt, nodes-null q qs e) r

fill_loop-Ends :
    (n num : ℕ) (qs : List Ptr) (eq : Queue) (last : Ptr) (h : Heap)
    → (eq.phead == null) ≡ false
    → eq.len + suc n ≡ num
    → suc n ≤ length (nodes qs)
    → last ≢ null
    → has last (nodes qs) ≡ false
    → distinct (nodes qs) ≡ true
    → Ends (suc n) (nodes qs) eq last h (fill_loop num qs eq last h)
unfolding counted
fill_loop-Ends n num [] eq last h head len enough ne out apart = absurd (omega arith)
fill_loop-Ends zero num (q ∷ qs) eq last h head len enough ne out apart =
    elim (Bool-cases (q == null)) [
      | inl e ↦ Ends-null 1 num q qs eq last h e (omega arith) (
          fill_loop-Ends zero num qs eq last h head len (ground arith) ne (ground arith)
            (ground arith))
      | inr e ↦ Ends-full num q qs eq last h e head (omega arith) ne out
    ]
fill_loop-Ends (suc n) num (q ∷ qs) eq last h head len enough ne out apart =
    elim (Bool-cases (q == null)) [
      | inl e ↦ Ends-null (suc (suc n)) num q qs eq last h e (omega arith) (
          fill_loop-Ends (suc n) num qs eq last h head len (ground arith) ne (ground arith)
            (ground arith))
      | inr e ↦
          let fresh : has q (nodes qs) ≡ false = ground arith in
          Ends-more (suc n) num q qs eq last h e head (omega arith) ne out fresh (
            fill_loop-Ends n num qs (counted eq) q (linked h last q) head (omega arith)
              (ground arith) (ground arith) fresh (ground arith))
    ]

abbrev no_node : Queue
no_node = record { phead = null; len = 0 }

-- What the loop makes of an empty queue.
record Built (ps : List Ptr) (o : Option (Queue × Heap)) : Type 0 where
  queue : Queue
  heap : Heap
  result : o ≡ some (queue, heap)
  holds : Holds heap queue ps

fill_loop-skip :
    (num : ℕ) (q : Ptr) (qs : List Ptr) (last : Ptr) (h : Heap)
    → (q == null) ≡ true
    → 1 ≤ num
    → fill_loop num (q ∷ qs) no_node last h ≡ fill_loop num qs no_node last h
fill_loop-skip num q qs last h e le = fill_loop-null num q qs no_node last h e (omega arith)

fill_loop-first :
    (num : ℕ) (q : Ptr) (qs : List Ptr) (last : Ptr) (h : Heap)
    → (q == null) ≡ false
    → fill_loop num (q ∷ qs) no_node last h ≡ (
        let eq : Queue = record { phead = q; len = 1 } in
        let rest = fill_loop num qs eq q (write h q (some null)) in
        if ltb 1 num then rest else some (eq, write h q (some null)))
unfolding fill_loop
fill_loop-first num q qs last h e = rw e refl

write-here : (h : Heap) (q : Ptr) → write h q (some null) q ≡ some null
unfolding write
write-here h q = ground arith

Built-first :
    (n : ℕ) (q : Ptr) (qs : List Ptr) (last : Ptr) (h : Heap)
    → (q == null) ≡ false
    → suc n ≤ length (nodes (q ∷ qs))
    → distinct (nodes (q ∷ qs)) ≡ true
    → Built (take (suc n) (nodes (q ∷ qs))) (fill_loop (suc n) (q ∷ qs) no_node last h)
Built-first zero q qs last h e enough apart =
    rw (fill_loop-first 1 q qs last h e, nodes-node q qs e)
      record {
        queue = record { phead = q; len = 1 };
        heap = write h q (some null);
        result = refl;
        holds = record { chain = cons (ground arith) (write-here h q) refl nil; count = refl };
      }
Built-first (suc n) q qs last h e enough apart =
    let fresh : has q (nodes qs) ≡ false = ground arith in
    let first : Queue = record { phead = q; len = 1 } in
    let r =
      fill_loop-Ends n (suc (suc n)) qs first q (write h q (some null)) e (omega arith)
        (ground arith) (ground arith) fresh (ground arith) in
    let more : ltb 1 (suc (suc n)) ≡ true = ground arith in
    rw (fill_loop-first (suc (suc n)) q qs last h e, nodes-node q qs e, more)
      record {
        queue = r.queue;
        heap = r.heap;
        result = r.result;
        holds = record {
          chain = rw r.phead r.chain;
          count = omega (arith, r.count, length-took (suc n) (nodes qs) (ground arith));
        };
      }

Built-null :
    (num : ℕ) (q : Ptr) (qs : List Ptr) (last : Ptr) (h : Heap)
    → (q == null) ≡ true
    → 1 ≤ num
    → Built (take num (nodes qs)) (fill_loop num qs no_node last h)
    → Built (take num (nodes (q ∷ qs))) (fill_loop num (q ∷ qs) no_node last h)
Built-null num q qs last h e le r = rw (fill_loop-skip num q qs last h e le, nodes-null q qs e) r

fill_loop-Built :
    (num : ℕ) (qs : List Ptr) (last : Ptr) (h : Heap)
    → 1 ≤ num
    → num ≤ length (nodes qs)
    → distinct (nodes qs) ≡ true
    → Built (take num (nodes qs)) (fill_loop num qs no_node last h)
fill_loop-Built num [] last h le enough apart = absurd (omega arith)
fill_loop-Built zero (q ∷ qs) last h le enough apart = absurd (omega arith)
fill_loop-Built (suc n) (q ∷ qs) last h le enough apart = elim (Bool-cases (q == null)) [
  | inl e ↦
      Built-null (suc n) q qs last h e le
        (fill_loop-Built (suc n) qs last h le (ground arith) (ground arith))
  | inr e ↦ Built-first n q qs last h e enough apart
]

-- `INIT_QUEUE` for `num` nodes, `num` at least 1, asks malloc until it has that many: whatever calls fail in
-- between, it returns once malloc has made `num` nodes, if those it makes are distinct. The free queue then
-- holds the nodes in the order they have been made, and the full queue holds none.
pub init_queue-Holds :
    (num : ℕ) (mallocs : List Ptr) (h : Heap)
    → 1 ≤ num
    → num ≤ length (nodes mallocs)
    → distinct (nodes mallocs) ≡ true
    → (eq fq : Queue) × (heap : Heap) × (init_queue num mallocs h ≡ some (eq, fq, heap))
      × Holds heap eq (take num (nodes mallocs))
      × Holds heap fq []
unfolding init_queue
init_queue-Holds num mallocs h le enough apart =
    let r = fill_loop-Built num mallocs null h le enough apart in
    (
      r.queue,
      no_node,
      r.heap,
      rw (init_queue, r.result) refl,
      r.holds,
      record { chain = nil; count = refl },
    )
