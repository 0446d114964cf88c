-- ===== src/Cdr/Conn/Steps.antt =====
-- What a round of `conn_cdr_thread` in src/send_cdr.c does to the records that are not acknowledged yet.
use vpu.Common.{
  ℕ, Bool, ◌≤◌, append-nil, ◌+◌, ◌*◌, ◌%◌, ◌<◌, ◌≡◌, refl, false, Option, none, some, List, [],
  ◌++◌, ◌==◌, if◌then◌else◌, is_some, length, arith, byte_at, Bool-cases, inl, inr, ◌∙◌, ap, sym,
}
use vpu.Cdr.{Cdr, CdrList, cdr_take, cdr_update_ack, cdr_reset_send}
use vpu.Cdr.Inv.{IsValid, cdr_reset_send-IsValid}
use vpu.Cdr.Slice.{slice}
use vpu.Cdr.Refine.{
  log, covered, Moved, cdr_take_refines, cdr_reset_send_refines, cdr_update_ack_refines,
}
use vpu.Cdr.Conn.{
  Batch, records_of, CdrConn, Round, Select, readable, timeout, failed, handle_frame, received,
  on_readable, poll, cdr_send, send_batch, serve, ensure,
}
use vpu.Cdr.Conn.Inv.{ConnValid, Fits, Fits-cong, poll-ConnValid, ConnValid-sockfd, ConnValid-buff}

-- the records not acknowledged yet, oldest first
abbrev pub pending : CdrList → List Cdr
pending b = (log b).in_flight ++ (log b).waiting

-- What an acknowledgement does: it takes records off the head of those in flight.
Shrunk : CdrList → CdrList → Type 0
Shrunk a b =
    (gone : List Cdr) × ((log a).in_flight ≡ gone ++ (log b).in_flight)
    × ((log b).waiting ≡ (log a).waiting)

Shrunk-refl : (a : CdrList) → Shrunk a a
unfolding Shrunk
Shrunk-refl a = ([], refl, refl)

Shrunk-update_ack :
    (ack : ℕ) (b : CdrList) → ack < 65536 → IsValid b → Shrunk b (cdr_update_ack ack b)
unfolding Shrunk
Shrunk-update_ack ack b h v = elim (cdr_update_ack_refines ack b h v) [
  | inl (few, flight, wait) ↦ (slice b.cdr_buf ((b.ack + 1) % 65536) (covered ack b), flight, wait)
  | inr (many, same) ↦ ([], ap (λ c. (log c).in_flight) (sym same), ap (λ c. (log c).waiting) same)
]

-- What the frames and the errors on a socket do to the sender.
record Heard (c d : CdrConn) : Type 0 where
  shrunk : Shrunk c.buff d.buff
  given_same : d.given ≡ c.given

Heard-frame : (c : CdrConn) → IsValid c.buff → Heard c (handle_frame c)
unfolding handle_frame
Heard-frame c v = elim (Bool-cases (byte_at c.recv_data 1 == 5)) [
  | inl five ↦ rw five record {
    shrunk =
        Shrunk-update_ack ((byte_at c.recv_data 2 * 256 + byte_at c.recv_data 3) % 65536) c.buff
          (omega arith) v;
    given_same = refl;
  }
  | inr other ↦ rw other (record { shrunk = Shrunk-refl c.buff; given_same = refl })
]

Heard-readable : (bytes : List ℕ) (c : CdrConn) → IsValid c.buff → Heard c (on_readable bytes c)
unfolding on_readable
Heard-readable bytes c v = elim (Bool-cases (c.remain_len == 0)) [
  | inl now ↦ rw now (Heard-frame c v)
  | inr more ↦ elim (Bool-cases (length bytes == 0)) [
    | inl lost ↦ rw (more, lost) (record { shrunk = Shrunk-refl c.buff; given_same = refl })
    | inr got ↦ elim (Bool-cases ((received bytes c).remain_len == 0)) [
      | inl whole ↦
          rw (more, got, whole)
            (let h = Heard-frame (received bytes c) v in
              record { shrunk = h.shrunk; given_same = h.given_same })
      | inr part ↦ rw (more, got, part) (record { shrunk = Shrunk-refl c.buff; given_same = refl })
    ]
  ]
]

Heard-poll : (sel : Select) (c : CdrConn) → IsValid c.buff → Heard c (poll sel c)
unfolding poll
Heard-poll (readable bytes) c v = Heard-readable bytes c v
Heard-poll timeout c v = record { shrunk = Shrunk-refl c.buff; given_same = refl }
Heard-poll failed c v = record { shrunk = Shrunk-refl c.buff; given_same = refl }

-- A round for a sender with `flight` in flight, `waiting` behind them and `given` for its connection: `gone` has been
-- acknowledged, and `batch` is taken from the waiting records and given to the connection.
abbrev pub Served : List Cdr → List Cdr → List Cdr → CdrConn → Type 0
Served flight waiting given d =
    (gone kept batch : List Cdr) × (flight ≡ gone ++ kept)
    × ((log d.buff).in_flight ≡ kept ++ batch)
    × (waiting ≡ batch ++ (log d.buff).waiting)
    × (length batch ≤ 16)
    × (d.given ≡ given ++ batch)

-- what `cdr_send` makes of the ring
Sent : CdrList → Bool × Option Batch × CdrList → Type 0
Sent b (success, batch, b') =
    ((log b').in_flight ≡ (log b).in_flight ++ records_of batch)
    × ((log b).waiting ≡ records_of batch ++ (log b').waiting)
    × (length (records_of batch) ≤ 16)

cdr_send-Sent : (io : Round) (b : CdrList) → IsValid b → Sent b (cdr_send io b)
unfolding cdr_send send_batch Sent
cdr_send-Sent io b v = go (cdr_take b).0 (cdr_take b).1 (cdr_take_refines b v)
  where
    go :
        (o : Option (ℕ × List Cdr)) (b' : CdrList)
        → Moved b o b'
        → Sent b (let (success, batch) = send_batch io o in (success, batch, b'))
    go none b' (w, e) = (
      ap (λ r. (log r).in_flight) e ∙ sym (append-nil (log b).in_flight),
      ap (λ r. (log r).waiting) (sym e),
      omega arith,
    )
    go (some (at, batch)) b' (a, pos, few, w, f) = (f, w, few)

serve-Served :
    (io : Round) (c : CdrConn)
    → Fits io.selected c
    → ConnValid c
    → Served (log c.buff).in_flight (log c.buff).waiting c.given (serve io c)
unfolding serve Shrunk Sent
serve-Served io c fits v =
    let c' = poll io.selected c in
    let w = poll-ConnValid io.selected c fits v in
    let h = Heard-poll io.selected c v.ring in
    let (gone, flight, wait) = h.shrunk in
    let (sent, rest, few) = cdr_send-Sent io c'.buff w.ring in
    elim (Bool-cases (is_some c'.sockfd)) [
      | inl up ↦ rw up (
        gone,
        (log c'.buff).in_flight,
        records_of (cdr_send io c'.buff).1,
        flight,
        sent,
        sym wait ∙ rest,
        few,
        ap (λ l. l ++ records_of (cdr_send io c'.buff).1) h.given_same,
      )
      | inr down ↦ rw down (
        gone,
        (log c'.buff).in_flight,
        [],
        flight,
        sym (append-nil (log c'.buff).in_flight),
        sym wait,
        omega arith,
        h.given_same ∙ sym (append-nil c.given),
      )
    ]

-- whether a round makes a connection: `fd` is the socket behind the test of the reload flag
abbrev pub opens : Option ℕ → Option ℕ → Bool
opens (some n) connect = false
opens none connect = is_some connect

-- A round on a connection that is made in it begins with nothing in flight and nothing given; every record that was
-- not acknowledged waits. Any other round begins with what is there.
abbrev pub Step : Bool → CdrConn → CdrConn → Type 0
Step new c d =
    if new
    then Served [] (pending c.buff) [] d
    else Served (log c.buff).in_flight (log c.buff).waiting c.given d

pub ensure-Step :
    (io : Round) (fd connect : Option ℕ) (c : CdrConn)
    → Fits io.selected c
    → ConnValid c
    → Step (opens fd connect) c (ensure io fd connect c)
unfolding ensure
ensure-Step io (some n) connect c fits v =
    serve-Served io (record c { sockfd = some n }) (Fits-cong io.selected c _ refl fits)
      (ConnValid-sockfd (some n) c v)
ensure-Step io none none c fits v = (
  [],
  (log c.buff).in_flight,
  [],
  refl,
  sym (append-nil (log c.buff).in_flight),
  refl,
  omega arith,
  sym (append-nil c.given),
)
ensure-Step io none (some n) c fits v =
    let c' : CdrConn = record c { sockfd = some n; buff = cdr_reset_send c.buff; given = [] } in
    let (none_flies, all_wait) = cdr_reset_send_refines c.buff v.ring in
    let (gone, kept, batch, flight, sent, rest, few, given) =
      serve-Served io c' (Fits-cong io.selected c c' refl fits) (
        ConnValid-buff (cdr_reset_send c.buff) [] (record c { sockfd = some n })
          (cdr_reset_send-IsValid c.buff v.ring) (ConnValid-sockfd (some n) c v)) in
    (gone, kept, batch, sym none_flies ∙ flight, sent, sym all_wait ∙ rest, few, given)
