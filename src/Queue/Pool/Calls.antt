-- ===== src/Queue/Pool/Calls.antt =====
-- A call on a queue of src/fax_queue.c, and where the nodes are behind it.
use vpu.Common.{
  ℕ, zero, suc, ◌+◌, ◌≡◌, ◌≢◌, ◌≤◌, refl, ◌∙◌, true, false, Option, none, some, List, [], ◌∷◌, ◌++◌,
  ◌==◌, Bool-cases, inl, inr, ne→not_==, arith,
}
use vpu.Queue.{Ptr, null, Heap, Queue, write}
use vpu.Queue.Chain.{has, frame-write, frame-ext}
use vpu.Queue.Ops.{en_queue_frames, fetch_phead_writes, fetch_phead_empty}
use vpu.Queue.Filled.{distinct}
use vpu.Queue.Pool.{Call, fetch, put, Side, pick, fetched, put_one, call, occ, Kept}

occ-append : (a : Ptr) (ps qs : List Ptr) → occ a (ps ++ qs) ≡ occ a ps + occ a qs
occ-append a [] qs = omega arith
occ-append a (p ∷ ps) qs = ground (arith, occ-append a ps qs)

has-occ : (a : Ptr) (ps : List Ptr) → has a ps ≡ true → 1 ≤ occ a ps
has-occ a [] inside = absurd (ground arith)
has-occ a (p ∷ ps) inside = elim (Bool-cases (a == p)) [
  | inl e ↦ ground arith
  | inr e ↦ let more : 1 ≤ occ a ps = has-occ a ps (ground arith) in ground arith
]

occ-has : (a : Ptr) (ps : List Ptr) → occ a ps ≡ 0 → has a ps ≡ false
occ-has a [] none_there = refl
occ-has a (p ∷ ps) none_there = elim (Bool-cases (a == p)) [
  | inl e ↦ absurd (ground arith)
  | inr e ↦ let more : has a ps ≡ false = occ-has a ps (ground arith) in ground arith
]

out-occ : (a : Ptr) (ps : List Ptr) → has a ps ≡ false → occ a ps ≡ 0
out-occ a [] out = refl
out-occ a (p ∷ ps) out = ground (arith, out-occ a ps (ground arith))

pub distinct-occ : (a : Ptr) (ps : List Ptr) → distinct ps ≡ true → occ a ps ≤ 1
distinct-occ a [] apart = omega arith
distinct-occ a (p ∷ ps) apart = elim (Bool-cases (a == p)) [
  | inl e ↦
      let same : a ≡ p = ground arith in
      let one : occ p ps ≡ 0 = out-occ p ps (ground arith) in
      let gone : occ a ps ≡ 0 = rw same one in ground arith
  | inr e ↦ let more : occ a ps ≤ 1 = distinct-occ a ps (ground arith) in ground arith
]

-- The node that is picked and the rest are the nodes held.
Picked : List Ptr → Option (Ptr × List Ptr) → Type 0
Picked held none = Unit {0}
Picked held (some (p, rest)) = (a : Ptr) → occ a held ≡ occ a (p ∷ rest)

Picked-behind :
    (q : Ptr) (held : List Ptr) (o : Option (Ptr × List Ptr))
    → Picked held o
    → Picked (q ∷ held) (elim o [ none ↦ none | some (p, rest) ↦ some (p, q ∷ rest) ])
unfolding Picked
Picked-behind q held none h = record {}
Picked-behind q held (some (p, rest)) h = λ a. ground (arith, h a)

pick-Picked : (i : ℕ) (held : List Ptr) → Picked held (pick i held)
unfolding Picked
pick-Picked i [] = record {}
pick-Picked zero (q ∷ held) = λ a. refl
pick-Picked (suc i) (q ∷ held) = Picked-behind q held (pick i held) (pick-Picked i held)

write_here : (h : Heap) (p : Ptr) → write h p (some null) p ≡ some null
unfolding write
write_here h p = ground arith

write_apart : (h : Heap) (p a : Ptr) → a ≢ p → write h p (some null) a ≡ h a
unfolding write
write_apart h p a ne = let e : (a == p) ≡ false = ne→not_== _ _ ne in rw e refl

-- a call ends, and the nodes are still all there
abbrev pub Went : List Ptr → Queue → List Ptr → Option Side → Type 0
Went made other qs o =
    (h : Heap) × (queue : Queue) × (held ps : List Ptr) × (o ≡ some (h, queue, held))
    × Kept made h queue other held ps qs

fetched-Went :
    (made : List Ptr) (h : Heap) (queue other : Queue) (held ps qs : List Ptr)
    → distinct made ≡ true
    → Kept made h queue other held ps qs
    → Went made other qs (fetched h queue held)
unfolding fetched
fetched-Went made h queue other held [] qs apart k =
    (h, queue, held, [], rw (fetched, fetch_phead_empty queue h k.here) refl, k)
fetched-Went made h queue other held (p ∷ ps) qs apart k =
    let (queue', run, here, ready, ne) = fetch_phead_writes queue h p ps k.here in
    let one : (p == null) ≡ false = ne→not_== _ _ ne in
    let once : occ p made ≤ 1 = distinct-occ p made apart in
    let alone : occ p qs ≡ 0 = ground (arith, k.nodes p) in
    (
      write h p (some null),
      queue',
      p ∷ held,
      ps,
      rw (fetched, run, one) refl,
      record {
        here = here;
        there = record {
          chain = frame-write p (some null) k.there.chain (occ-has p qs alone);
          count = k.there.count;
        };
        nodes = λ a. ground (arith, k.nodes a);
        ready = λ a inside. elim (Bool-cases (a == p)) [
          | inl e ↦ let same : a ≡ p = ground arith in rw same (ne, write_here h p)
          | inr e ↦
              let (ne', r) = k.ready a (ground arith) in (ne', write_apart h p a (ground arith) ∙ r)
        ];
      },
    )

put_one-Went :
    (made : List Ptr) (h : Heap) (queue other : Queue) (held ps qs : List Ptr)
    → distinct made ≡ true
    → Kept made h queue other held ps qs
    → (o : Option (Ptr × List Ptr)) → Picked held o
    → Went made other qs (put_one h queue held o)
unfolding put_one Picked
put_one-Went made h queue other held ps qs apart k none picked = (h, queue, held, ps, refl, k)
put_one-Went made h queue other held ps qs apart k (some (p, rest)) picked =
    let once : occ p made ≤ 1 = distinct-occ p made apart in
    let in_hand : 1 ≤ occ p held = ground (arith, picked p) in
    let out : has p ps ≡ false = occ-has p ps (omega (arith, k.nodes p)) in
    let (ne, free) = k.ready p in_hand in
    let (queue', g, run, here, frame) = en_queue_frames queue h ps p k.here ne out free in
    (
      g,
      queue',
      rest,
      ps ++ (p ∷ []),
      rw (put_one, run) refl,
      record {
        here = here;
        there = record {
          chain =
              frame-ext k.there.chain
                (λ a inside. frame a (outside a (omega (arith, has-occ a qs inside))));
          count = k.there.count;
        };
        nodes = λ a. ground (arith, k.nodes a, picked a, occ-append a ps (p ∷ []));
        ready = λ a inside.
            let here_too : 1 ≤ occ a held = ground (arith, picked a) in
            let (ne', free') = k.ready a here_too in
            (ne', frame a (outside a (omega (arith, here_too))) ∙ free');
      },
    )
  where
    outside : (a : Ptr) → 1 ≤ occ a qs + occ a held → has a ps ≡ false
    outside a there = occ-has a ps (omega (arith, k.nodes a, distinct-occ a made apart))

pub call-Went :
    (c : Call) (made : List Ptr) (h : Heap) (queue other : Queue) (held ps qs : List Ptr)
    → distinct made ≡ true
    → Kept made h queue other held ps qs
    → Went made other qs (call c h queue held)
unfolding call
call-Went fetch made h queue other held ps qs apart k =
    fetched-Went made h queue other held ps qs apart k
call-Went (put i) made h queue other held ps qs apart k =
    put_one-Went made h queue other held ps qs apart k (pick i held) (pick-Picked i held)

pub Kept-swap :
    {made : List Ptr} {h : Heap} {queue other : Queue} {held ps qs : List Ptr}
    → Kept made h queue other held ps qs
    → Kept made h other queue held qs ps
Kept-swap k = record {
  here = k.there;
  there = k.here;
  nodes = λ a. omega (arith, k.nodes a);
  ready = k.ready;
}
