-- ===== src/Cdr/Refine.antt =====
-- The ring of src/send_cdr.c against the delivery log that it implements: records in flight (sent,
-- not yet acknowledged) and records waiting to be sent.
use vpu.Common.{
  ℕ, suc, ◌+◌, ◌-◌, ◌%◌, ◌*◌, ◌≤◌, ◌<◌, ◌≡◌, ◌⊎◌, inl, inr, refl, sym, ap, ◌∙◌, Bool-cases, true,
  false, Option, some, none, List, [], ◌∷◌, ◌++◌, length, get_or, set, drop, arith, ltb, leb, ◌==◌,
  if◌then◌else◌,
}
use mathlib.Core.Path.{ap₂}
use vpu.Cdr.{
  Cdr, CdrList, zero_cdr, make_room, cdr_insert, batch_num, cdr_take, cdr_update_ack,
  cdr_reset_send,
}
use vpu.Cdr.Inv.{IsValid, batch_num_bounds, sent, held, make_room-IsValid, make_room-held}
use vpu.Cdr.Slice.{
  slice, length-slice, slice-append, slice-set_outside, slice-set_end, take-drop-slice,
}

pub record Log : Type 0 where
  pub in_flight : List Cdr
  pub waiting : List Cdr

abbrev pub log : CdrList → Log
log b = record {
  in_flight = slice b.cdr_buf ((b.ack + 1) % 65536) (sent b);
  waiting = slice b.cdr_buf b.send (held b - sent b);
}

unfoldable pub drop_oldest : Log → Log
drop_oldest l = elim l.in_flight [
  | [] ↦ record l { waiting = drop 1 l.waiting }
  | x ∷ xs ↦ record l { in_flight = xs }
]

-- the log keeps 65535 records at most, and gives up the oldest
unfoldable pub log_insert : Cdr → Log → Log
unfolding drop_oldest
log_insert s l =
    let l' = if ltb (length l.in_flight + length l.waiting) 65535 then l else drop_oldest l in
    record l' { waiting = l'.waiting ++ (s ∷ []) }

length-log : (b : CdrList) → IsValid b → length (log b).in_flight + length (log b).waiting ≡ held b
length-log b v = omega (
  arith,
  length-slice b.cdr_buf ((b.ack + 1) % 65536) (sent b),
  length-slice b.cdr_buf b.send (held b - sent b),
)

slice_of_pos :
    (buf : List Cdr) (i j n m : ℕ)
    → n ≡ suc m
    → (i + 1) % 65536 ≡ j
    → slice buf i n ≡ get_or buf i zero_cdr ∷ slice buf j m
slice_of_pos buf i j n m e e' =
    ap (slice buf i) e ∙ ap (λ k. get_or buf i zero_cdr ∷ slice buf k m) e'

log_eq : (a b : Log) → a.in_flight ≡ b.in_flight → a.waiting ≡ b.waiting → a ≡ b
log_eq a b p q = λ i. record { in_flight = p i; waiting = q i }

-- a slice of no records, however its length is written
slice_empty : (buf : List Cdr) (i n : ℕ) → n ≡ 0 → slice buf i n ≡ []
slice_empty buf i n e = ap (slice buf i) e

slice_cong : (buf : List Cdr) (i j n m : ℕ) → i ≡ j → n ≡ m → slice buf i n ≡ slice buf j m
slice_cong buf i j n m p q = ap₂ (slice buf) p q

-- making room in a full ring drops the oldest record of the log
make_room_full :
    (b : CdrList) → IsValid b → (b.wait == b.ack) ≡ true → log (make_room b) ≡ drop_oldest (log b)
unfolding make_room drop_oldest
make_room_full b v e = elim (Bool-cases ((b.ack + 1) % 65536 == b.send)) [
  | inl none_sent ↦
      rw (e, none_sent)
        (let first = slice_empty b.cdr_buf ((b.ack + 1) % 65536) (sent b) (ground arith) in
          let rest =
            slice_of_pos b.cdr_buf b.send ((b.send + 1) % 65536) (held b - sent b) 65534
              (ground arith) refl in
          rw first (
            log_eq _ _ (slice_empty b.cdr_buf _ _ (ground arith))
              (slice_cong b.cdr_buf _ _ _ 65534 refl (ground arith) ∙ sym (ap (drop 1) rest))))
  | inr some_sent ↦
      rw (e, some_sent)
        (let first =
            slice_of_pos b.cdr_buf ((b.ack + 1) % 65536) (((b.ack + 1) % 65536 + 1) % 65536)
              (sent b) (sent b - 1) (ground arith) refl in
          rw first (
            log_eq _ _ (slice_cong b.cdr_buf _ _ _ _ refl (ground arith))
              (slice_cong b.cdr_buf _ _ _ _ refl (ground arith))))
]

-- With room, the record is stored behind the waiting ones and nothing else of the log changes.
store-log :
    (s : Cdr) (b : CdrList)
    → IsValid b
    → held b < 65535
    → log (record b { cdr_buf = set b.cdr_buf b.wait s; wait = (b.wait + 1) % 65536 })
      ≡ record { in_flight = (log b).in_flight; waiting = (log b).waiting ++ (s ∷ []) }
store-log s b v room =
    log_eq _ _
      (slice-set_outside b.cdr_buf s ((b.ack + 1) % 65536) (sent b) b.wait (omega arith) v.wait_in
        (omega arith))
      (slice_cong (set b.cdr_buf b.wait s) _ _ _ (held b - sent b + 1) refl (omega arith)
        ∙ slice-set_end b.cdr_buf s b.send (held b - sent b) b.wait v.storage v.send_in
            (omega arith) (omega arith))

make_room-room : (b : CdrList) → (b.wait == b.ack) ≡ false → make_room b ≡ b
unfolding make_room
make_room-room b e = rw e

make_room-log :
    (b : CdrList)
    → IsValid b
    → log (make_room b) ≡ (
        if ltb (length (log b).in_flight + length (log b).waiting) 65535
        then log b
        else drop_oldest (log b))
make_room-log b v = elim (Bool-cases (b.wait == b.ack)) [
  | inl full ↦
      let e : ltb (held b) 65535 ≡ false = ground arith in
      rw (length-log b v, e) (make_room_full b v full)
  | inr room ↦
      let e : ltb (held b) 65535 ≡ true = ground arith in
      rw (length-log b v, e) (ap log (make_room-room b room))
]

-- `cdr_insert` on a valid ring appends the record to those that wait; only when 65535 records are
-- held does it give up one, the oldest.
pub cdr_insert_refines :
    (s : Cdr) (b : CdrList) → IsValid b → log (cdr_insert s b) ≡ log_insert s (log b)
unfolding cdr_insert log_insert
cdr_insert_refines s b v =
    store-log s (make_room b) (make_room-IsValid b v) (make_room-held b v)
    ∙ ap (λ (l : Log). record l { waiting = l.waiting ++ (s ∷ []) }) (make_room-log b v)

-- `cdr_send` with nothing waiting changes nothing.
cdr_take_nothing : (b : CdrList) → IsValid b → (b.send == b.wait) ≡ true → (log b).waiting ≡ []
cdr_take_nothing b v e = slice_empty b.cdr_buf b.send (held b - sent b) (ground arith)

-- what `cdr_send` may answer: a batch that it moves from the waiting records to those in flight
abbrev pub Moved : CdrList → Option (ℕ × List Cdr) → CdrList → Type 0
Moved b none c = ((log b).waiting ≡ []) × (c ≡ b)
Moved b (some (at, batch)) c =
    (at ≡ b.send)
    × (0 < length batch)
    × (length batch ≤ 16)
    × ((log b).waiting ≡ batch ++ (log c).waiting)
    × ((log c).in_flight ≡ (log b).in_flight ++ batch)

-- `cdr_send` on a valid ring moves between 1 and 16 records from the head of the waiting ones to the
-- end of those in flight, exactly the records that it copies for the socket, numbered by `send`; it
-- moves none, and changes nothing, only when none wait.
pub cdr_take_refines : (b : CdrList) → IsValid b → Moved b (cdr_take b).0 (cdr_take b).1
unfolding cdr_take
cdr_take_refines b v = elim (Bool-cases (b.send == b.wait)) [
  | inl same ↦ rw same (cdr_take_nothing b v same, refl)
  | inr more ↦
      let num = batch_num b in
      let (some_left, few, inside, enough) = batch_num_bounds b v more in
      let copy = take-drop-slice b.cdr_buf b.send num v.storage inside in
      rw (more, copy)
        (
          refl,
          rw (length-slice b.cdr_buf b.send num) some_left,
          rw (length-slice b.cdr_buf b.send num) few,
          slice_cong b.cdr_buf _ _ _ (num + (held b - sent b - num)) refl (omega arith)
              ∙ slice-append b.cdr_buf b.send num (held b - sent b - num) v.send_in
              ∙ ap (λ l. slice b.cdr_buf b.send num ++ l)
                  (slice_cong b.cdr_buf _ _ _ _ refl (omega arith)),
          slice_cong b.cdr_buf _ _ _ (sent b + num) refl (omega arith)
              ∙ slice-append b.cdr_buf ((b.ack + 1) % 65536) (sent b) num (omega arith)
              ∙ ap (λ l. (log b).in_flight ++ l) (slice_cong b.cdr_buf _ _ _ _ (omega arith) refl),
        )
]

-- `cdr_reset_send`, run on each new connection, puts the records in flight back in front of those
-- that wait: none is lost, and their order is kept.
pub cdr_reset_send_refines :
    (b : CdrList)
    → IsValid b
    → ((log (cdr_reset_send b)).in_flight ≡ [])
      × ((log (cdr_reset_send b)).waiting ≡ (log b).in_flight ++ (log b).waiting)
unfolding cdr_reset_send
cdr_reset_send_refines b v = (
  slice_empty b.cdr_buf _ _ (omega arith),
  slice_cong b.cdr_buf _ _ _ (sent b + (held b - sent b)) refl (omega arith)
      ∙ slice-append b.cdr_buf ((b.ack + 1) % 65536) (sent b) (held b - sent b) (omega arith)
      ∙ ap (λ l. (log b).in_flight ++ l) (slice_cong b.cdr_buf _ _ _ _ (omega arith) refl),
)

-- how many records in flight an acknowledgement number covers, counted round the ring
abbrev pub covered : ℕ → CdrList → ℕ
covered ack b = (ack + 65536 - b.ack) % 65536

-- An acknowledgement that covers no more than what is in flight removes exactly that many records
-- from its head; any other one changes nothing. The records that wait stay in both cases.
pub cdr_update_ack_refines :
    (ack : ℕ) (b : CdrList)
    → ack < 65536
    → IsValid b
    → ((covered ack b ≤ length (log b).in_flight)
        × ((log b).in_flight
            ≡ slice b.cdr_buf ((b.ack + 1) % 65536) (covered ack b)
              ++ (log (cdr_update_ack ack b)).in_flight)
        × ((log (cdr_update_ack ack b)).waiting ≡ (log b).waiting))
      ⊎ ((length (log b).in_flight < covered ack b) × (cdr_update_ack ack b ≡ b))
unfolding cdr_update_ack
cdr_update_ack_refines ack b h v =
    let len = length-slice b.cdr_buf ((b.ack + 1) % 65536) (sent b) in
    let send_num = (b.send + 2 * 65536 - 1 - b.ack) % 65536 in
    elim (Bool-cases (leb (covered ack b) send_num)) [
      | inl fresh ↦ inl (
        ground (arith, len),
        rw fresh (
            slice_cong b.cdr_buf _ _ _ (covered ack b + (sent b - covered ack b)) refl
              (ground arith)
            ∙ slice-append b.cdr_buf ((b.ack + 1) % 65536) (covered ack b) (sent b - covered ack b)
                (omega arith)
            ∙ ap (λ l. slice b.cdr_buf ((b.ack + 1) % 65536) (covered ack b) ++ l)
                (slice_cong b.cdr_buf _ _ _ _ (omega arith) (ground arith))),
        rw fresh (slice_cong b.cdr_buf _ _ _ _ refl (ground arith)),
      )
      | inr stale ↦ inr (ground (arith, len), rw stale)
    ]
