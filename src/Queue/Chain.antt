-- ===== src/Queue/Chain.antt =====
-- The chain of nodes that a queue of src/fax_queue.c stands for.
use vpu.Common.{
  ℕ, zero, suc, ◌≡◌, ◌≢◌, refl, ◌∙◌, Bool, true, false, ◌||◌, Option, some, List, [], ◌∷◌, ◌++◌,
  ◌==◌, length, arith,
}
use vpu.Queue.{Ptr, null, Heap, Queue, write, next_of, walk}

abbrev pub has : Ptr → List Ptr → Bool
has a [] = false
has a (p ∷ ps) = (a == p) || has a ps

-- From `p` the `next` fields lead through the distinct nodes `ps` to `stop`.
pub data Chain (h : Heap) (stop : Ptr) : Ptr → List Ptr → Type 0 where
  nil : Chain h stop stop []
  cons :
      {p q : Ptr} {ps : List Ptr}
      → p ≢ null
      → h p ≡ some q
      → has p ps ≡ false
      → Chain h stop q ps
      → Chain h stop p (p ∷ ps)

-- The queue holds the nodes `ps`, first in first out, and its length is right.
pub record Holds (h : Heap) (queue : Queue) (ps : List Ptr) : Type 0 where
  pub chain : Chain h null queue.phead ps
  pub count : queue.len ≡ length ps

-- a chain does not notice a write outside it
pub frame-write :
    {h : Heap} {stop p : Ptr} {ps : List Ptr} (a : Ptr) (c : Option Ptr)
    → Chain h stop p ps
    → has a ps ≡ false
    → Chain (write h a c) stop p ps
unfolding write
frame-write a c nil out = nil
frame-write a c (cons {p} {ps} ne e fresh s) out =
    cons ne (ground arith) fresh (frame-write a c s (ground arith))

-- a chain does not notice changes outside it
pub frame-ext :
    {h g : Heap} {stop p : Ptr} {ps : List Ptr}
    → Chain h stop p ps
    → ((a : Ptr) → has a ps ≡ true → g a ≡ h a)
    → Chain g stop p ps
frame-ext nil same = nil
frame-ext (cons {p} ne e fresh s) same =
    cons ne (same p (ground arith) ∙ e) fresh (frame-ext s (λ a inside. same a (ground arith)))

has-append : (a : Ptr) (ps qs : List Ptr) → has a (ps ++ qs) ≡ (has a ps || has a qs)
has-append a [] qs = refl
has-append a (p ∷ ps) qs = ground (arith, has-append a ps qs)

-- What the walk of `EN_QUEUE` finds: the last node, behind which another one can be linked.
pub record Last (h : Heap) (p : Ptr) (ps : List Ptr) (last : Ptr) : Type 0 where
  pub ne_null : last ≢ null
  pub ends : h last ≡ some null
  pub here : has last ps ≡ true
  pub link :
      (new : Ptr)
      → new ≢ null
      → has new ps ≡ false
      → h new ≡ some null
      → Chain (write h last (some new)) null p (ps ++ (new ∷ []))

Last-one : {h : Heap} {p : Ptr} → p ≢ null → h p ≡ some null → Last h p (p ∷ []) p
unfolding write
Last-one {p} ne e = record {
  ne_null = ne;
  ends = e;
  here = ground arith;
  link = λ new new_ne out n.
      let apart : (new == p) ≡ false = ground arith in
      cons ne (ground arith) (ground arith) (cons new_ne (ground arith) refl nil);
}

Last-cons :
    {h : Heap} {p q last : Ptr} {ps : List Ptr}
    → p ≢ null
    → h p ≡ some q
    → has p ps ≡ false
    → Last h q ps last
    → Last h p (p ∷ ps) last
unfolding write
Last-cons {p} {last} {ps} ne e fresh l = record {
  ne_null = l.ne_null;
  ends = l.ends;
  here = ground (arith, l.here);
  link = λ new new_ne out n.
      let in_front : (last == p) ≡ false = ground (arith, l.here) in
      cons ne (ground arith) (ground (arith, has-append p ps (new ∷ [])))
        (l.link new new_ne (ground arith) n);
}

pub next_of-ok : (h : Heap) (p : Ptr) {q : Ptr} → p ≢ null → h p ≡ some q → next_of h p ≡ some q
unfolding next_of
next_of-ok h p ne e = let nz : (p == null) ≡ false = ground arith in rw nz e

walk-step :
    (n : ℕ) (h : Heap) (p : Ptr) {q : Ptr} → next_of h p ≡ some q → walk (suc n) h p ≡ walk n h q
unfolding walk
walk-step n h p e = rw (e, walk)

pub walk-Last :
    {h : Heap} {p : Ptr} {ps : List Ptr} (n : ℕ)
    → Chain h null p ps
    → length ps ≡ suc n
    → (last : Ptr) × (walk n h p ≡ some last) × Last h p ps last
unfolding walk
walk-Last n nil len = absurd (omega arith)
walk-Last zero (cons {p} ne e fresh nil) len = (p, refl, Last-one ne e)
walk-Last zero (cons ne e fresh (cons ne' e' fresh' s)) len = absurd (omega arith)
walk-Last {h} (suc n) (cons {p} ne e fresh s) len =
    let (last, w, l) = walk-Last n s (omega arith) in
    (last, walk-step n h p (next_of-ok h p ne e) ∙ w, Last-cons ne e fresh l)
