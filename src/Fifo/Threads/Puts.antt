-- ===== src/Fifo/Threads/Puts.antt =====
-- The accesses of the capture thread to a shared ring of src/pkt_fifo.c.
use vpu.Common.{
  ℕ, suc, ◌+◌, ◌%◌, ◌^◌, ◌<◌, ◌≡◌, refl, ap, ◌∙◌, sym, List, [], ◌∷◌, ◌++◌, length, set, arith, leb,
  length-append, length-set, get_or-set_ne, if_splits, tests,
}
use vpu.Fifo.{PktFifo, PktBuf, PktNode, zero_buf, step_pos, copy_fits, filled}
use vpu.Fifo.Inv.{wrap_pos}
use vpu.Fifo.Refine.{window, window-set, frame, frame-filled}
use vpu.Fifo.Threads.{
  Putter, outside, copying, counting, stepping, Getter, waiting, reading, taking, moving, Event,
  node_bytes, put_step,
}
use vpu.Fifo.Threads.Queue.{Queue, after, Allowed}
use vpu.Fifo.Threads.Held.{base_of, next_of, Ring, NodeOk, PutterOk, GetterOk, window-init}

-- What an access of the capture thread leaves, for a base that it does not move.
abbrev pub PutKept : ℕ → ℕ → Queue → Getter → PktFifo × Putter × Event → Type 0
PutKept size base q g (f, p, e) =
    (f.size ≡ size)
    × Allowed size e q
    × Ring f base (next_of p f) (after e q)
    × PutterOk f base (after e q) p
    × GetterOk f (after e q) g

module _ (f : PktFifo) (base : ℕ) (q : Queue) (g : Getter) where
  pub outside-PutKept :
      (node : PktNode)
      → NodeOk node
      → Ring f base f.in_pos q
      → GetterOk f q g
      → PutKept f.size base q g (put_step node f outside)
  unfolding put_step
  outside-PutKept node ok r k =
      if_splits (PutKept f.size base q g) (leb f.size f.count)
        (λ no_space. (refl, omega (tests, r.counted, r.bound), r, tt, k))
        (λ room. (refl, tt, r, (refl, omega (tests, r.counted), ok), k))

  -- The slot that is filled is not the one that the worker reads.
  kept_slot :
      (i : ℕ) (b : PktBuf)
      → base ≡ base_of g f
      → i ≡ wrap_pos (base + length q) f.size
      → length q < f.size
      → base < f.size
      → GetterOk f q g
      → GetterOk (record f { pkt = set f.pkt i b }) q g
  kept_slot i b at_base here room base_in k = at_getter g at_base k
    where
      at_getter :
          (g' : Getter)
          → base ≡ base_of g' f
          → GetterOk f q g'
          → GetterOk (record f { pkt = set f.pkt i b }) q g'
      at_getter waiting e h = h
      at_getter (reading o) e h = h
      at_getter (moving r) e h = h
      at_getter (taking r) e (at, some_left, len) = (
        at,
        some_left,
        len ∙ ap (λ c. c.pkt_len) (sym (get_or-set_ne f.pkt i f.out_pos b zero_buf (ground arith))),
      )

  pub copying-PutKept :
      (node : PktNode) (i : ℕ) (n : PktNode)
      → base ≡ base_of g f
      → Ring f base f.in_pos q
      → PutterOk f base q (copying i n)
      → GetterOk f q g
      → PutKept f.size base q g (put_step node f (copying i n))
  unfolding put_step
  copying-PutKept node i n at_base r (here, room, ok) k =
      let there : i ≡ wrap_pos (base + length q) f.size = here ∙ r.next_here in
      let f' = record f { in_pos = i } in
      let more =
        window-set f.pkt f.size (filled f' n) (length q) base i r.storage r.small r.base_in room
          there
        ∙ ap (λ l. l ++ (frame (filled f' n) ∷ [])) r.holds
        ∙ ap (λ b. q ++ (b ∷ [])) (frame-filled f' n ok.there) in
      if_splits (PutKept f.size base q g) (copy_fits f' n)
        (λ _. (
          refl,
          tt,
          record {
            storage = omega (arith, r.storage, length-set f.pkt i (filled f' n));
            small = r.small;
            base_in = r.base_in;
            next_here = r.next_here;
            counted = r.counted;
            bound = r.bound;
            holds = window-init (set f.pkt i (filled f' n)) f.size base q (node_bytes n) more;
          },
          (here, room, more),
          kept_slot i (filled f' n) at_base there room r.base_in k,
        ))
        (λ bad_copy. absurd (ground (arith, r.storage, r.base_in, ok.fits, ok.there)))

  grown : (x : List ℕ) → length (q ++ (x ∷ [])) ≡ suc (length q)
  grown x = omega (arith, length-append q (x ∷ []))

  more_left :
      (x : List ℕ)
      → GetterOk f q g
      → GetterOk (record f { count = (f.count + 1) % 2 ^ 32 }) (q ++ (x ∷ [])) g
  more_left x k = at_getter g k
    where
      at_getter :
          (g' : Getter)
          → GetterOk f q g'
          → GetterOk (record f { count = (f.count + 1) % 2 ^ 32 }) (q ++ (x ∷ [])) g'
      at_getter waiting h = h
      at_getter (reading o) (at, some_left) = (at, omega (arith, grown x))
      at_getter (moving r) h = h
      at_getter (taking r) (at, some_left, len) = (at, omega (arith, grown x), len)

  pub counting-PutKept :
      (node : PktNode) (i : ℕ) (n : PktNode)
      → Ring f base f.in_pos q
      → PutterOk f base q (counting i n)
      → GetterOk f q g
      → PutKept f.size base q g (put_step node f (counting i n))
  unfolding put_step
  counting-PutKept node i n r (here, room, more) k =
      let e = grown (node_bytes n) in
      (
        refl,
        room,
        record {
          storage = r.storage;
          small = r.small;
          base_in = r.base_in;
          next_here = ground (arith, r.next_here, r.base_in, r.small, e);
          counted = omega (arith, r.counted, r.small, e);
          bound = omega (arith, e);
          holds = ap (window f.pkt f.size base) e ∙ more;
        },
        here,
        more_left (node_bytes n) k,
      )

  pub stepping-PutKept :
      (node : PktNode) (i : ℕ)
      → Ring f base (step_pos i f.size) q
      → GetterOk f q g
      → PutKept f.size base q g (put_step node f (stepping i))
  unfolding put_step
  stepping-PutKept node i r k = (
    refl,
    tt,
    record {
      storage = r.storage;
      small = r.small;
      base_in = r.base_in;
      next_here = r.next_here;
      counted = r.counted;
      bound = r.bound;
      holds = r.holds;
    },
    tt,
    same g k,
  )
    where
      same :
          (g' : Getter) → GetterOk f q g' → GetterOk (record f { in_pos = step_pos i f.size }) q g'
      same waiting h = h
      same (reading o) h = h
      same (taking r') h = h
      same (moving r') h = h
