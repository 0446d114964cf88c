-- ===== src/Queue/Pool.antt =====
-- The nodes of src/fax_queue.c go round: threads take nodes off the free and the full queue and put those they
-- hold into one of them. Each call is one step; the late write of `len` in FETCH_PHEAD is in Queue/Race.
pub mod Calls
pub mod Circulate
use vpu.Common.{
  ℕ, zero, suc, ◌+◌, ◌≡◌, ◌≢◌, ◌≤◌, refl, ◌∙◌, sym, Bool, true, false, Option, none, some, List, [],
  ◌∷◌, ◌++◌, ◌==◌, length, take, if◌then◌else◌, Bool-cases, inl, inr, ne→not_==, ap, arith, not,
  ◌&&◌,
}
use vpu.Queue.{Ptr, null, Heap, Queue, en_queue, fetch_phead, init_queue}
use vpu.Queue.Chain.{Holds}

-- a call on one of the two queues; a thread puts back the i-th of the nodes that are held
pub data Call : Type 0 where
  fetch : Call
  put : ℕ → Call

-- the heap, the queue of the call, and the nodes that the threads hold
abbrev pub Side : Type 0
Side = Heap × Queue × List Ptr

abbrev pub pick : ℕ → List Ptr → Option (Ptr × List Ptr)
pick i [] = none
pick zero (p ∷ held) = some (p, held)
pick (suc i) (p ∷ held) = elim (pick i held) [ none ↦ none | some (q, rest) ↦ some (q, p ∷ rest) ]

unfoldable pub fetched : Heap → Queue → List Ptr → Option Side
fetched h queue held = elim (fetch_phead queue h) [
  | none ↦ none
  | some (p, queue', h') ↦ some (h', queue', if p == null then held else p ∷ held)
]

unfoldable pub put_one : Heap → Queue → List Ptr → Option (Ptr × List Ptr) → Option Side
put_one h queue held none = some (h, queue, held)
put_one h queue held (some (p, rest)) = elim (en_queue queue p h) [
  | none ↦ none
  | some (queue', h') ↦ some (h', queue', rest)
]

unfoldable pub call : Call → Heap → Queue → List Ptr → Option Side
call fetch h queue held = fetched h queue held
call (put i) h queue held = put_one h queue held (pick i held)

abbrev pub occ : Ptr → List Ptr → ℕ
occ a [] = 0
occ a (p ∷ ps) = let rest = occ a ps in if a == p then rest + 1 else rest

-- The nodes `made` are in the two queues and in the threads' hands, each in one place, and those held are
-- ready to be put.
pub record Kept (made : List Ptr) (h : Heap) (queue other : Queue) (held ps qs : List Ptr)
    : Type 0 where
  pub here : Holds h queue ps
  pub there : Holds h other qs
  pub nodes : (a : Ptr) → occ a ps + occ a qs + occ a held ≡ occ a made
  pub ready : (a : Ptr) → 1 ≤ occ a held → (a ≢ null) × (h a ≡ some null)

-- The two queues, and the nodes in the threads' hands.
pub record Pool : Type 0 where
  pub heap : Heap
  pub eq : Queue
  pub fq : Queue
  pub held : List Ptr

-- which queue a call is made on: the free one or the full one
pub data Step : Type 0 where
  on_free : Call → Step
  on_full : Call → Step

unfoldable pub step : Step → Pool → Option Pool
step (on_free c) s = elim (call c s.heap s.eq s.held) [
  | none ↦ none
  | some (h, q, held) ↦ some (record { heap = h; eq = q; fq = s.fq; held = held })
]
step (on_full c) s = elim (call c s.heap s.fq s.held) [
  | none ↦ none
  | some (h, q, held) ↦ some (record { heap = h; eq = s.eq; fq = q; held = held })
]

unfoldable pub run : List Step → Pool → Option Pool
run [] s = some s
run (a ∷ steps) s = elim (step a s) [ none ↦ none | some t ↦ run steps t ]

-- `INIT_QUEUE`, and then any calls
unfoldable pub circulate : ℕ → List Ptr → Heap → List Step → Option Pool
circulate num mallocs h steps = elim (init_queue num mallocs h) [
  | none ↦ none
  | some (eq, fq, heap) ↦ run steps (record { heap = heap; eq = eq; fq = fq; held = [] })
]

-- Every node is in one of the queues or in a thread's hands, and in one place only.
pub record Complete (made : List Ptr) (s : Pool) : Type 0 where
  pub free : List Ptr
  pub full : List Ptr
  pub kept : Kept made s.heap s.eq s.fq s.held free full
