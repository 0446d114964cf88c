-- ===== src/Queue/Race.antt =====
-- The write `queue->len = 0` of `FETCH_PHEAD` in src/fax_queue.c stands behind the unlock, so another
-- thread can run `EN_QUEUE` between the test of `phead` and that write.
use vpu.Common.{◌≡◌, ◌≢◌, refl, ◌∙◌, Option, none, some, [], ◌∷◌, arith}
use vpu.Queue.{Ptr, null, Heap, Queue, write, walk, link_at, en_queue, reset_len}
use vpu.Queue.Chain.{Chain, nil, cons, Holds}
use vpu.Queue.Ops.{en_queue-walk, link_at-node}

-- The run: a thread has found the queue empty and left the lock; `x` is put in; the first thread
-- now resets `len`; `y` and `z` are put in.
pub late_reset_run : Queue → Ptr → Ptr → Ptr → Heap → Option (Queue × Heap)
late_reset_run queue x y z h = elim (en_queue queue x h) [
  | none ↦ none
  | some (q1, h1) ↦ elim (en_queue (reset_len q1) y h1) [
    | none ↦ none
    | some (q2, h2) ↦ en_queue q2 z h2
  ]
]

run-eq :
    (queue q1 q2 : Queue) (x y z : Ptr) (h h1 h2 : Heap)
    → en_queue queue x h ≡ some (q1, h1)
    → en_queue (reset_len q1) y h1 ≡ some (q2, h2)
    → late_reset_run queue x y z h ≡ en_queue q2 z h2
unfolding late_reset_run
run-eq queue q1 q2 x y z h h1 h2 e e' = rw (e, late_reset_run) (rw (e', late_reset_run))

empty-null : {h : Heap} {p : Ptr} → Chain h null p [] → p ≡ null
empty-null nil = refl

-- From an empty queue: when `EN_QUEUE` of `x` runs before the late `len = 0` of a `FETCH_PHEAD`, and `y` and
-- `z` are put in after it, every call goes through, but the queue ends as the chain of `x` and `z`, with
-- length 2: `y` was put in and never taken off, and is gone. `x` and `z` are different nodes with `next`
-- cleared.
pub late_reset_loses_node :
    (h : Heap) (x y z : Ptr)
    → x ≢ null
    → z ≢ null
    → x ≢ z
    → h x ≡ some null
    → h z ≡ some null
    → (queue : Queue) × (g : Heap) × (late_reset_run (record { phead = null; len = 0 }) x y z h
        ≡ some (queue, g))
      × Holds g queue (x ∷ z ∷ [])
unfolding walk link_at reset_len write
late_reset_loses_node h x y z nx nz xz ex ez =
    let g = write h x (some y) in
    let at_x : g x ≡ some y = ground arith in
    (
      record { phead = x; len = 2 },
      write g x (some z),
      run-eq (record { phead = null; len = 0 }) (record { phead = x; len = 1 })
            (record { phead = x; len = 1 }) x y z h h g
            (en_queue-walk (record { phead = null; len = 0 }) x h refl)
            (en_queue-walk (record { phead = x; len = 0 }) y h refl
              ∙ link_at-node (record { phead = x; len = 0 }) y h x null nx ex)
          ∙ en_queue-walk (record { phead = x; len = 1 }) z g refl
          ∙ link_at-node (record { phead = x; len = 1 }) z g x y nx at_x,
      record {
        chain = cons nx (ground arith) (ground arith) (cons nz (ground arith) refl nil);
        count = refl;
      },
    )
