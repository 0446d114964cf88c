-- ===== src/Queue/Examples.antt =====
-- The theorems on src/fax_queue.c at a heap of four nodes, and tests.
use vpu.Common.{◌≡◌, refl, List, Option, none, some, [], ◌∷◌, ◌==◌, if◌then◌else◌, arith}
use vpu.Queue.{
  next_of, write, walk, link_at, Ptr, null, Heap, Queue, fill_loop, init_queue, en_queue,
  fetch_phead, destroy_queue,
}
use vpu.Queue.Chain.{nil, cons, Holds, has}
use vpu.Queue.Ops.{en_queue_appends, fetch_phead_takes, destroy_queue_frees}
use vpu.Queue.Pool.{
  Pool, Step, fetch, put, on_free, on_full, step, run, circulate, call, fetched, put_one, Complete,
}
use vpu.Queue.Pool.Circulate.{circulate-Complete}
use vpu.Queue.Race.{late_reset_run, late_reset_loses_node}

-- nodes 1 and 2 linked, nodes 3 and 4 free
abbrev heap : Heap
heap a =
    if a == 1
    then some 2
    else if a == 2
    then some 0
    else if a == 3
    then some 0
    else if a == 4
    then some 0
    else none

abbrev two : Queue
two = record { phead = 1; len = 2 }

abbrev empty : Queue
empty = record { phead = 0; len = 0 }

two-Holds : Holds heap two (1 ∷ 2 ∷ [])
two-Holds = record {
  chain = cons (omega arith) refl refl (cons (omega arith) refl refl nil);
  count = refl;
}

empty-Holds : Holds heap empty []
empty-Holds = record { chain = nil; count = refl }

-- malloc fails once in between
init_queue_test :
    (let built : Option (Queue × Queue × Heap) = init_queue 2 (5 ∷ 0 ∷ 6 ∷ 7 ∷ []) (λ a. none) in
      elim built [ none ↦ empty | some (eq, fq, h) ↦ eq ])
    ≡ record { phead = 5; len = 2 }
unfolding init_queue fill_loop
init_queue_test = refl

en_queue_appends_example :
    (queue : Queue) × (g : Heap) × (en_queue two 3 heap ≡ some (queue, g))
    × Holds g queue (1 ∷ 2 ∷ 3 ∷ [])
en_queue_appends_example =
    en_queue_appends two heap (1 ∷ 2 ∷ []) 3 two-Holds (omega arith) refl refl

fetch_phead_takes_example :
    (queue : Queue) × (g : Heap) × (fetch_phead two heap ≡ some (1, queue, g))
    × Holds g queue (2 ∷ [])
    × (g 1 ≡ some null)
fetch_phead_takes_example = fetch_phead_takes two heap 1 (2 ∷ []) two-Holds

destroy_queue_frees_test :
    (g : Heap) × (destroy_queue two heap ≡ some g)
    × ((a : Ptr) → g a ≡ (if has a (1 ∷ 2 ∷ []) then none else heap a))
destroy_queue_frees_test = destroy_queue_frees two heap (1 ∷ 2 ∷ []) two-Holds

late_reset_loses_node_example :
    (queue : Queue) × (g : Heap) × (late_reset_run empty 2 3 4 heap ≡ some (queue, g))
    × Holds g queue (2 ∷ 4 ∷ [])
late_reset_loses_node_example =
    late_reset_loses_node heap 2 3 4 (omega arith) (omega arith) (omega arith) refl refl

-- Node 5 is filled and goes into the full queue, node 6 is held and goes back, node 5 is held at the end.
abbrev round_trip : List Step
round_trip =
    on_free fetch
    ∷ on_full (put 0)
    ∷ on_free fetch
    ∷ on_full fetch
    ∷ on_free (put 1)
    ∷ on_free (put 7)
    ∷ []

circulate_test :
    (let end : Option Pool = circulate 2 (0 ∷ 5 ∷ 0 ∷ 6 ∷ []) (λ a. none) round_trip in
      elim end [ none ↦ [] | some s ↦ s.eq.phead ∷ s.eq.len ∷ s.fq.len ∷ s.held ])
    ≡ 6 ∷ 1 ∷ 0 ∷ 5 ∷ []
unfolding circulate run step call fetched put_one init_queue fill_loop fetch_phead next_of write
    en_queue walk link_at
circulate_test = refl

circulate-Complete_example :
    (s : Pool) × (circulate 2 (0 ∷ 5 ∷ 0 ∷ 6 ∷ []) (λ a. none) round_trip ≡ some s)
    × Complete (5 ∷ 6 ∷ []) s
circulate-Complete_example =
    circulate-Complete 2 (0 ∷ 5 ∷ 0 ∷ 6 ∷ []) (λ a. none) round_trip (omega arith) (omega arith)
      refl
