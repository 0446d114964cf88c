-- ===== src/Fifo/Threads/Gets.antt =====
-- The accesses of the worker to a shared ring of src/pkt_fifo.c.
use vpu.Common.{
  ℕ, ◌+◌, ◌-◌, ◌%◌, ◌^◌, ◌≡◌, refl, ap, ◌∙◌, sym, List, [], ◌∷◌, length, get_or, take, arith, leb,
  if_splits, tests,
}
use vpu.Fifo.{PktFifo, NodeRef, zero_buf, step_pos}
use mathlib.Core.Path.{subst}
use vpu.Fifo.Refine.{window, frame}
use vpu.Fifo.Threads.{
  Putter, outside, copying, counting, stepping, crashed, Getter, waiting, reading, taking, moving,
  Event, slot_bytes, get_step, get_access, noted, Handed,
}
use vpu.Fifo.Threads.Queue.{Queue, tail, after, Allowed}
use vpu.Fifo.Threads.Held.{base_of, Ring, PutterOk, GetterOk}

-- What an access of the worker leaves, for a place of the next packet that it does not move.
abbrev pub GetKept : ℕ → ℕ → Queue → Putter → PktFifo × Getter × Event → Type 0
GetKept size next q p (f, g, e) =
    (f.size ≡ size)
    × Allowed size e q
    × Ring f (base_of g f) next (after e q)
    × PutterOk f (base_of g f) (after e q) p
    × GetterOk f (after e q) g

empty_of_length : (q : Queue) → length q ≡ 0 → q ≡ []
empty_of_length [] e = refl
empty_of_length (x ∷ q) e = absurd (omega arith)

module _ (f : PktFifo) (next : ℕ) (p : Putter) where
  pub waiting-GetKept :
      (q : Queue)
      → Ring f f.out_pos next q
      → PutterOk f f.out_pos q p
      → GetKept f.size next q p (get_step f waiting)
  unfolding get_step get_access noted
  waiting-GetKept q r k =
      if_splits (λ (s : PktFifo × Getter × Handed). GetKept f.size next q p (s.0, s.1, noted f s.2))
        (leb f.count 0)
        (λ none_left. (refl, empty_of_length q (omega (tests, r.counted)), r, k, r.base_in))
        (λ some_left.
          if_splits
            (λ (s : PktFifo × Getter × Handed). GetKept f.size next q p (s.0, s.1, noted f s.2))
            (leb f.size f.out_pos) (λ out_of_ring. absurd (omega (tests, r.base_in)))
            (λ _. (refl, tt, r, k, (refl, omega (tests, r.counted)))))

  pub reading-GetKept :
      (q : Queue) (o : ℕ)
      → Ring f f.out_pos next q
      → PutterOk f f.out_pos q p
      → GetterOk f q (reading o)
      → GetKept f.size next q p (get_step f (reading o))
  unfolding get_step get_access noted
  reading-GetKept q o r k (at, some_left) =
      (refl, tt, r, k, (at, some_left, ap (λ i. (get_or f.pkt i zero_buf).pkt_len) at))

  -- The packet that is taken is the head of the queue.
  head_taken :
      (r : NodeRef) (y : List ℕ) (q : Queue)
      → window f.pkt f.size f.out_pos (length (y ∷ q)) ≡ y ∷ q
      → r.slot ≡ f.out_pos
      → r.pkt_len ≡ (get_or f.pkt f.out_pos zero_buf).pkt_len
      → y ≡ slot_bytes f r
  head_taken r y q h at len =
      let a : y ≡ frame (get_or f.pkt f.out_pos zero_buf) = cc h in
      a
      ∙ ap (λ n. take n (get_or f.pkt f.out_pos zero_buf).pkt) (sym len)
      ∙ ap (λ i. take r.pkt_len (get_or f.pkt i zero_buf).pkt) (sym at)

  one_less :
      (y : List ℕ) (q : Queue)
      → PutterOk f f.out_pos (y ∷ q) p
      → PutterOk
          (record f { count = (f.count + 2 ^ 32 - 1) % 2 ^ 32 })
          (step_pos f.out_pos f.size)
          q
          p
  one_less y q k = at_putter p k
    where
      at_putter :
          (p' : Putter)
          → PutterOk f f.out_pos (y ∷ q) p'
          → PutterOk
              (record f { count = (f.count + 2 ^ 32 - 1) % 2 ^ 32 })
              (step_pos f.out_pos f.size)
              q
              p'
      at_putter outside h = tt
      at_putter (copying i n) (here, room, ok) = (here, omega arith, ok)
      at_putter (counting i n) (here, room, more) = (here, omega arith, ap tail more)
      at_putter (stepping i) h = h
      at_putter crashed h = h

  pub taking-GetKept :
      (q : Queue) (r : NodeRef)
      → Ring f f.out_pos next q
      → PutterOk f f.out_pos q p
      → GetterOk f q (taking r)
      → GetKept f.size next q p (get_step f (taking r))
  unfolding get_step get_access noted
  taking-GetKept [] r v k (at, some_left, len) = absurd (omega arith)
  taking-GetKept (y ∷ q) r v k (at, some_left, len) =
      let base : step_pos f.out_pos f.size ≡ step_pos r.slot f.size =
        ap (λ i. step_pos i f.size) (sym at) in
      let f' = record f { count = (f.count + 2 ^ 32 - 1) % 2 ^ 32 } in
      (
        refl,
        ap (λ x. x ∷ q) (head_taken r y q v.holds at len),
        subst (λ b. Ring f' b next q) base
            (record {
              storage = v.storage;
              small = v.small;
              base_in = ground (arith, v.base_in, v.small);
              next_here = ground (arith, v.next_here, v.base_in, v.small, v.bound);
              counted = omega (arith, v.counted, v.bound, v.small);
              bound = omega (arith, v.bound);
              holds = ap tail v.holds;
            }),
        subst (λ b. PutterOk f' b q p) base (one_less y q k),
        at,
      )

  pub moving-GetKept :
      (q : Queue) (r : NodeRef)
      → Ring f (step_pos r.slot f.size) next q
      → PutterOk f (step_pos r.slot f.size) q p
      → GetterOk f q (moving r)
      → GetKept f.size next q p (get_step f (moving r))
  unfolding get_step get_access noted
  moving-GetKept q r v k at = (
    refl,
    tt,
    record {
      storage = v.storage;
      small = v.small;
      base_in = v.base_in;
      next_here = v.next_here;
      counted = v.counted;
      bound = v.bound;
      holds = v.holds;
    },
    same p k,
    v.base_in,
  )
    where
      same :
          (p' : Putter)
          → PutterOk f (step_pos r.slot f.size) q p'
          → PutterOk (record f { out_pos = step_pos r.slot f.size }) (step_pos r.slot f.size) q p'
      same outside h = h
      same (copying i n) h = h
      same (counting i n) h = h
      same (stepping i) h = h
      same crashed h = h
