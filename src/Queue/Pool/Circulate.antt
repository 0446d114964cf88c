-- ===== src/Queue/Pool/Circulate.antt =====
-- Any calls on the two queues that INIT_QUEUE of src/fax_queue.c has made.
use vpu.Common.{ℕ, zero, suc, ◌≡◌, ◌≤◌, refl, true, false, some, List, [], ◌∷◌, length, take, arith}
use vpu.Queue.{Ptr, Heap}
use vpu.Queue.Chain.{has}
use vpu.Queue.Filled.{nodes, distinct, has-take, init_queue-Holds}
use vpu.Queue.Pool.{Pool, Step, on_free, on_full, Kept, step, run, circulate, Complete}
use vpu.Queue.Pool.Calls.{call-Went, Kept-swap}

step-Complete :
    (a : Step) (made : List Ptr) (s : Pool)
    → distinct made ≡ true
    → Complete made s
    → (t : Pool) × (step a s ≡ some t) × Complete made t
unfolding step
step-Complete (on_free c) made s apart k =
    let (h, q, held, ps, e, kept) =
      call-Went c made s.heap s.eq s.fq s.held k.free k.full apart k.kept in
    (
      record { heap = h; eq = q; fq = s.fq; held = held },
      rw (step, e) refl,
      record { free = ps; full = k.full; kept = kept },
    )
step-Complete (on_full c) made s apart k =
    let (h, q, held, ps, e, kept) =
      call-Went c made s.heap s.fq s.eq s.held k.full k.free apart (Kept-swap k.kept) in
    (
      record { heap = h; eq = s.eq; fq = q; held = held },
      rw (step, e) refl,
      record { free = k.free; full = ps; kept = Kept-swap kept },
    )

run-Complete :
    (steps : List Step) (made : List Ptr) (s : Pool)
    → distinct made ≡ true
    → Complete made s
    → (t : Pool) × (run steps s ≡ some t) × Complete made t
unfolding run
run-Complete [] made s apart k = (s, refl, k)
run-Complete (a ∷ steps) made s apart k =
    let (t, e, k') = step-Complete a made s apart k in
    let (u, e', k'') = run-Complete steps made t apart k' in (u, rw (run, e) e', k'')

distinct-take : (n : ℕ) (ps : List Ptr) → distinct ps ≡ true → distinct (take n ps) ≡ true
distinct-take zero ps apart = refl
distinct-take (suc n) [] apart = refl
distinct-take (suc n) (p ∷ ps) apart =
    let out : has p (take n ps) ≡ false = has-take p n ps (ground arith) in
    ground (arith, distinct-take n ps (ground arith))

-- From `INIT_QUEUE` for `num` nodes, `num` at least 1, whatever calls of malloc fail before it has made that
-- many, and through any calls of `FETCH_PHEAD` and `EN_QUEUE` on the two queues by threads that put only nodes
-- they hold: no call faults; both queues stay well-formed, with the right length; and each node
-- that has been made is in one of the queues or held by a thread, and in one place only. The nodes that malloc
-- makes are distinct, and each call is one step.
pub circulate-Complete :
    (num : ℕ) (mallocs : List Ptr) (h : Heap) (steps : List Step)
    → 1 ≤ num
    → num ≤ length (nodes mallocs)
    → distinct (nodes mallocs) ≡ true
    → (s : Pool) × (circulate num mallocs h steps ≡ some s) × Complete (take num (nodes mallocs)) s
unfolding circulate
circulate-Complete num mallocs h steps le enough apart =
    let (eq, fq, heap, e, free, full) = init_queue-Holds num mallocs h le enough apart in
    let first : Pool = record { heap = heap; eq = eq; fq = fq; held = [] } in
    let made = take num (nodes mallocs) in
    let kept : Kept made heap eq fq [] made [] = record {
      here = free;
      there = full;
      nodes = λ a. omega arith;
      ready = λ a inside. absurd (omega arith);
    } in
    let (s, e', k) =
      run-Complete steps made first (distinct-take num (nodes mallocs) apart)
        (record { free = made; full = []; kept = kept }) in
    (s, rw (circulate, e) e', k)
