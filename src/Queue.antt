-- ===== src/Queue.antt =====
-- The queues of fax nodes: src/fax_queue.h and src/fax_queue.c. A queue is a linked list through the
-- heap with a cached length. The heap maps an address to the `next` field of the node allocated
-- there (the other fields of a node are not touched here); 0 is NULL. `QUEUE` itself and its mutex
-- lie outside the heap; each function below runs with the mutex held.
pub mod Chain
pub mod Ops
pub mod Race
pub mod Filled
pub mod Pool
mod Examples
use vpu.Common.{
  ℕ, zero, suc, ◌+◌, ◌-◌, Bool, true, false, Option, none, some, List, [], ◌∷◌, ltb, is_some, ◌==◌,
  if◌then◌else◌,
}

abbrev pub Ptr : Type 0
Ptr = ℕ

abbrev pub null : Ptr
null = 0

abbrev pub Heap : Type 0
Heap = Ptr → Option Ptr

-- `QUEUE`
pub record Queue : Type 0 where
  pub phead : Ptr
  pub len : ℕ

-- `p->next = q`
unfoldable pub write : Heap → Ptr → Option Ptr → Heap
write h p c a = if a == p then c else h a

-- `p->next`; `none` is a fault: NULL, or an address that holds no node
unfoldable pub next_of : Heap → Ptr → Option Ptr
next_of h p = if p == null then none else h p

-- The loop `for (i = 1; i < queue->len; i++) p = p->next` with `rounds` rounds left.
unfoldable pub walk : ℕ → Heap → Ptr → Option Ptr
walk zero h p = some p
walk (suc rounds) h p = elim (next_of h p) [ none ↦ none | some q ↦ walk rounds h q ]

-- the part of `EN_QUEUE` behind the loop, with the node that the loop has reached
pub link_at : Queue → Ptr → Heap → Ptr → Option (Queue × Heap)
link_at queue tmp h p =
    if p == null
    then some (record queue { phead = tmp; len = queue.len + 1 }, h)
    else if is_some (next_of h p)
    then some (record queue { len = queue.len + 1 }, write h p (some tmp))
    else none

-- `EN_QUEUE`
pub en_queue : Queue → Ptr → Heap → Option (Queue × Heap)
en_queue queue tmp h = elim (walk (queue.len - 1) h queue.phead) [
  | none ↦ none
  | some p ↦ link_at queue tmp h p
]

-- the else branch of `FETCH_PHEAD`, with the `next` field of the first node
pub take_off : Queue → Heap → Option Ptr → Option (Ptr × Queue × Heap)
take_off queue h none = none
take_off queue h (some q) =
    some (
      queue.phead,
      record queue { phead = q; len = queue.len - 1 },
      write h queue.phead (some null),
    )

-- What `FETCH_PHEAD` does to an empty queue. The source does so behind the unlock.
pub reset_len : Queue → Queue
reset_len queue = record queue { len = 0 }

-- `FETCH_PHEAD`: the node taken off, NULL if there is none. `len` is an int that the code keeps
-- equal to the number of nodes; the subtraction runs only where there is a first node.
pub fetch_phead : Queue → Heap → Option (Ptr × Queue × Heap)
unfolding reset_len take_off
fetch_phead queue h =
    if queue.phead == null
    then some (null, reset_len queue, h)
    else take_off queue h (next_of h queue.phead)

-- The loop of `DESTROY_QUEUE` with `rounds` rounds left: it frees the nodes one by one.
unfoldable pub free_nodes : ℕ → Ptr → Heap → Option Heap
free_nodes zero p h = some h
free_nodes (suc rounds) p h = elim (next_of h p) [
  | none ↦ none
  | some q ↦ free_nodes rounds q (write h p none)
]

pub destroy_queue : Queue → Heap → Option Heap
destroy_queue queue h = free_nodes queue.len queue.phead h

-- The loop of `INIT_QUEUE` that fills the free queue. Each call of malloc returns the next address
-- of the list, 0 when it fails; `last` is the variable `p`. `none`: the list is used up.
unfoldable pub fill_loop : ℕ → List Ptr → Queue → Ptr → Heap → Option (Queue × Heap)
fill_loop num [] eq last h = none
fill_loop num (q ∷ qs) eq last h =
    let eq' : Queue =
      if q == null
      then eq
      else record eq { phead = if eq.phead == null then q else eq.phead; len = eq.len + 1 } in
    let last' = if q == null then last else q in
    let h' : Heap =
      if q == null
      then h
      else if eq.phead == null
      then write h q (some null)
      else write (write h q (some null)) last (some q) in
    let rest = fill_loop num qs eq' last' h' in if ltb eq'.len num then rest else some (eq', h')

-- `INIT_QUEUE` where both queue structs could be allocated: the filled free queue and the empty one.
pub init_queue : ℕ → List Ptr → Heap → Option (Queue × Queue × Heap)
init_queue num mallocs h =
    let empty : Queue = record { phead = null; len = 0 } in
    elim (fill_loop num mallocs empty null h) [ none ↦ none | some (eq, h') ↦ some (eq, empty, h') ]
