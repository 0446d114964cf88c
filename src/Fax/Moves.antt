-- ===== src/Fax/Moves.antt =====
-- What a round of `fax_pre` in src/fax_decode.c does to the queues, the CDR ring and the counters.
use vpu.Common.{
  ℕ, ◌+◌, ◌%◌, ◌^◌, ◌≤◌, ◌<◌, ◌≡◌, ◌≢◌, refl, inl, inr, true, false, Option, some, List, [], ◌∷◌,
  ◌++◌, arith, length, ◌==◌, if◌then◌else◌, Bool-cases, ne→not_==,
}
use vpu.Cdr.{cdr_insert}
use vpu.Queue.{Ptr, null, Heap, write}
use vpu.Queue.Chain.{Chain, cons, Holds, has, frame-write, frame-ext}
use vpu.Queue.Ops.{en_queue_frames, fetch_phead_writes}
use vpu.Fax.{Sending, going_on, overread, ended, next_fax}
use vpu.Fax.Send.{Quiet, EndsAt, send_loop-EndsAt}
use vpu.Fax.Rounds.{
  FaxState, Decoded, finished, callflag_of, give_back, after_send, deliver, decode, fax_round,
}

-- no node is in both lists
abbrev pub Apart : List Ptr → List Ptr → Type 0
Apart ps qs = (a : Ptr) → has a ps ≡ true → has a qs ≡ false

-- The state `t` differs from `s` in that the empty queue has got `p`.
record Given (s t : FaxState) (p : Ptr) (ps qs : List Ptr) : Type 0 where
  full : Holds t.heap t.fq ps
  empty : Holds t.heap t.eq (qs ++ (p ∷ []))
  ring : t.ring ≡ s.ring
  dequeue : t.fax_dequeue ≡ s.fax_dequeue
  yes_count : t.fax_yes ≡ s.fax_yes
  no_count : t.fax_no ≡ s.fax_no

write_here : (h : Heap) (p : Ptr) (c : Option Ptr) → write h p c p ≡ c
unfolding write
write_here h p c = let e : (p == p) ≡ true = ground arith in rw e refl

give_back-Given :
    (p : Ptr) (s : FaxState) (ps qs : List Ptr)
    → Holds s.heap s.fq ps
    → Holds s.heap s.eq qs
    → has p ps ≡ false
    → has p qs ≡ false
    → Apart ps qs
    → p ≢ null
    → (t : FaxState) × (give_back p s ≡ finished t) × Given s t p ps qs
unfolding give_back
give_back-Given p s ps qs full empty out_ps out_qs apart ne =
    let h = write s.heap p (some null) in
    let ready : Holds h s.eq qs = record {
      chain = frame-write p (some null) empty.chain out_qs;
      count = empty.count;
    } in
    let (eq, g, run, holds, frame) =
      en_queue_frames s.eq h qs p ready ne out_qs (write_here s.heap p (some null)) in
    (
      record s { eq = eq; heap = g },
      rw (run, give_back) refl,
      record {
        full = record {
          chain =
              frame-ext (frame-write p (some null) full.chain out_ps)
                (λ a inside. frame a (apart a inside));
          count = full.count;
        };
        empty = holds;
        ring = refl;
        dequeue = refl;
        yes_count = refl;
        no_count = refl;
      },
    )

-- What a round with the node `p` has done.
pub record Moved (d : Decoded) (s t : FaxState) (p : Ptr) (ps qs : List Ptr) : Type 0 where
  pub full : Holds t.heap t.fq ps
  pub empty : Holds t.heap t.eq (qs ++ (p ∷ []))
  pub ring : t.ring ≡ cdr_insert (record (s.cdr p) { callflag = callflag_of d }) s.ring
  pub dequeue : t.fax_dequeue ≡ (s.fax_dequeue + 1) % 2 ^ 64
  pub yes_count : t.fax_yes ≡ (if callflag_of d == 1 then (s.fax_yes + 1) % 2 ^ 64 else s.fax_yes)
  pub no_count : t.fax_no ≡ (if callflag_of d == 1 then s.fax_no else (s.fax_no + 1) % 2 ^ 64)

-- What the sending loop is relied on not to meet: another thread's reload, and too few attempts to come round.
pub record Calm (d : Decoded) (s : FaxState) : Type 0 where
  pub quiet : Quiet d.tries
  pub no_reload : s.globals.svm_fax_reload ≢ 1
  pub table : length s.globals.fax_infos ≡ 32
  pub few : s.globals.fax_num ≤ 32
  pub here : s.m < s.globals.fax_num
  pub tries : s.globals.fax_num ≤ length d.tries

after_send-Given :
    (p : Ptr) (s : FaxState) (ps qs : List Ptr) (num : ℕ) (r : Sending)
    → Holds s.heap s.fq ps
    → Holds s.heap s.eq qs
    → has p ps ≡ false
    → has p qs ≡ false
    → Apart ps qs
    → p ≢ null
    → EndsAt num r
    → (t : FaxState) × (after_send p s r ≡ finished t) × Given s t p ps qs
unfolding after_send
after_send-Given p s ps qs num going_on full empty out_ps out_qs apart ne ends = absurd ends
after_send-Given p s ps qs num overread full empty out_ps out_qs apart ne ends = absurd ends
after_send-Given p s ps qs num (ended sent m g) full empty out_ps out_qs apart ne ends =
    let (t, e, v) =
      give_back-Given p (record s { globals = g; m = next_fax g.fax_num m }) ps qs full empty out_ps
        out_qs apart ne in
    (
      t,
      e,
      record {
        full = v.full;
        empty = v.empty;
        ring = v.ring;
        dequeue = v.dequeue;
        yes_count = v.yes_count;
        no_count = v.no_count;
      },
    )

fresh_head : {h : Heap} {p q : Ptr} {ps : List Ptr} → Chain h null p (q ∷ ps) → has q ps ≡ false
fresh_head (cons ne e fresh s) = fresh

-- A round that finds the node `p` at the head of the full queue hands it to the end of the empty queue, with the other
-- nodes of both queues in their places; it puts the record of the call, marked as fax or not as the decoder says,
-- into the CDR ring, and counts the node once. The queues share no node, and the sending loop is calm.
pub fax_round-Moved :
    (thread : ℕ) (d : Decoded) (s : FaxState) (p : Ptr) (ps qs : List Ptr)
    → Holds s.heap s.fq (p ∷ ps)
    → Holds s.heap s.eq qs
    → Apart (p ∷ ps) qs
    → Calm d s
    → (t : FaxState) × (fax_round thread d s ≡ finished t) × Moved d s t p ps qs
unfolding fax_round decode deliver
fax_round-Moved thread d s p ps qs full empty apart calm =
    let (fq, run, full', ends, ne) = fetch_phead_writes s.fq s.heap p ps full in
    let out_qs : has p qs ≡ false = apart p (ground arith) in
    let out_ps = fresh_head full.chain in
    let apart' : Apart ps qs = (λ a inside. apart a (ground arith)) in
    let empty' : Holds (write s.heap p (some null)) s.eq qs = record {
      chain = frame-write p (some null) empty.chain out_qs;
      count = empty.count;
    } in
    let c = record (s.cdr p) { callflag = callflag_of d } in
    let s' : FaxState = record s {
      fq = fq;
      heap = write s.heap p (some null);
      cdr = λ a. if a == p then c else s.cdr a;
      ring = cdr_insert c s.ring;
      fax_dequeue = (s.fax_dequeue + 1) % 2 ^ 64;
    } in
    let nz = ne→not_== p null ne in
    elim (Bool-cases (callflag_of d == 1)) [
      | inl fax ↦
          let loop =
            send_loop-EndsAt thread d.tries s.m s.m s.globals calm.quiet calm.no_reload calm.table
              calm.few calm.here calm.here (ground (arith, calm.tries, calm.here)) in
          let (t, e, v) =
            after_send-Given p (record s' { fax_yes = (s.fax_yes + 1) % 2 ^ 64 }) ps qs
              s.globals.fax_num _ full' empty' out_ps out_qs apart' ne loop in
          (
            t,
            rw (run, nz, fax) e,
            record {
              full = v.full;
              empty = v.empty;
              ring = v.ring;
              dequeue = v.dequeue;
              yes_count = rw fax v.yes_count;
              no_count = rw fax v.no_count;
            },
          )
      | inr voice ↦
          let (t, e, v) =
            give_back-Given p (record s' { fax_no = (s.fax_no + 1) % 2 ^ 64 }) ps qs full' empty'
              out_ps out_qs apart' ne in
          (
            t,
            rw (run, nz, voice) e,
            record {
              full = v.full;
              empty = v.empty;
              ring = v.ring;
              dequeue = v.dequeue;
              yes_count = rw voice v.yes_count;
              no_count = rw voice v.no_count;
            },
          )
    ]
