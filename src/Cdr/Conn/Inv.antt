-- ===== src/Cdr/Conn/Inv.antt =====
-- The receive state of `conn_cdr_thread` in src/send_cdr.c stays one unfinished frame, and the ring
-- behind it stays valid, whatever the system calls of a round return.
use vpu.Common.{
  [], ℕ, ◌+◌, ◌-◌, ◌*◌, ◌%◌, ◌^◌, ◌≤◌, ◌<◌, ◌≡◌, refl, false, Option, none, some, List, ◌==◌,
  if◌then◌else◌, is_some, length, arith, byte_at, Bool-cases, inl, inr, ◌∙◌, ap, length-blit,
}
use vpu.Cdr.{Cdr, CdrList, cdr_reset_send}
use vpu.Cdr.Inv.{IsValid, cdr_take-IsValid, cdr_update_ack-IsValid, cdr_reset_send-IsValid}
use vpu.Cdr.Conn.{
  CdrConn, Round, Select, readable, timeout, failed, handle_frame, received, on_readable, poll,
  cdr_send, serve, ensure, conn_round,
}

-- recv(2) stores at most the bytes that it was asked for.
abbrev pub Fits : Select → CdrConn → Type 0
Fits (readable bytes) c = length bytes ≤ c.remain_len
Fits timeout c = Unit {0}
Fits failed c = Unit {0}

-- At the head of each round part of a frame of four bytes is missing, and the retry counter is small.
pub record ConnValid (c : CdrConn) : Type 0 where
  pub frame : c.remain_len + c.recv_len ≡ 4
  pub open_frame : 0 < c.remain_len
  pub storage : length c.recv_data ≡ 4
  pub tries : c.conn_times < 60
  pub ring : IsValid c.buff

pub handle_frame-ring : (c : CdrConn) → IsValid c.buff → IsValid (handle_frame c).buff
unfolding handle_frame
handle_frame-ring c v =
    let ack = (byte_at c.recv_data 2 * 2 ^ 8 + byte_at c.recv_data 3) % 65536 in
    let w = cdr_update_ack-IsValid ack c.buff (omega arith) v in
    elim (Bool-cases (byte_at c.recv_data 1 == 5)) [ inl five ↦ rw five w | inr other ↦ rw other v ]

handle_frame-shape :
    (c : CdrConn)
    → ((handle_frame c).remain_len ≡ 4)
      × ((handle_frame c).recv_len ≡ 0)
      × ((handle_frame c).recv_data ≡ c.recv_data)
      × ((handle_frame c).conn_times ≡ c.conn_times)
unfolding handle_frame
handle_frame-shape c = (refl, refl, refl, refl)

handle_frame-ConnValid :
    (c : CdrConn)
    → length c.recv_data ≡ 4
    → c.conn_times < 60
    → IsValid c.buff
    → ConnValid (handle_frame c)
handle_frame-ConnValid c len tries v =
    let (r, n, d, t) = handle_frame-shape c in
    record {
      frame = omega (arith, r, n);
      open_frame = omega (arith, r);
      storage = ap length d ∙ len;
      tries = omega (arith, t);
      ring = handle_frame-ring c v;
    }

pub on_readable-ConnValid :
    (bytes : List ℕ) (c : CdrConn)
    → length bytes ≤ c.remain_len
    → ConnValid c
    → ConnValid (on_readable bytes c)
unfolding on_readable
on_readable-ConnValid bytes c fits v =
    let now : (c.remain_len == 0) ≡ false = ground arith in
    elim (Bool-cases (length bytes == 0)) [
      | inl lost ↦
          rw (now, lost)
            (record {
              frame = v.frame;
              open_frame = v.open_frame;
              storage = v.storage;
              tries = v.tries;
              ring = v.ring;
            })
      | inr got ↦ elim (Bool-cases (c.remain_len - length bytes == 0)) [
        | inl whole ↦
            rw (now, got, whole)
              (handle_frame-ConnValid (received bytes c)
                (length-blit c.recv_data c.recv_len bytes ∙ v.storage) v.tries v.ring)
        | inr part ↦
            rw (now, got, part)
              (record {
                frame = omega (arith, v.frame);
                open_frame = ground arith;
                storage = length-blit c.recv_data c.recv_len bytes ∙ v.storage;
                tries = v.tries;
                ring = v.ring;
              })
      ]
    ]

pub poll-ConnValid :
    (sel : Select) (c : CdrConn) → Fits sel c → ConnValid c → ConnValid (poll sel c)
unfolding poll
poll-ConnValid (readable bytes) c fits v = on_readable-ConnValid bytes c fits v
poll-ConnValid timeout c fits v = v
poll-ConnValid failed c fits v = v

pub cdr_send-IsValid : (io : Round) (b : CdrList) → IsValid b → IsValid (cdr_send io b).2
unfolding cdr_send
cdr_send-IsValid io b v = (cdr_take-IsValid b v).0

pub Fits-cong :
    (sel : Select) (c d : CdrConn) → c.remain_len ≡ d.remain_len → Fits sel c → Fits sel d
Fits-cong (readable bytes) c d e fits = omega (arith, fits)
Fits-cong timeout c d e fits = tt
Fits-cong failed c d e fits = tt

serve-ConnValid :
    (io : Round) (c : CdrConn) → Fits io.selected c → ConnValid c → ConnValid (serve io c)
unfolding serve
serve-ConnValid io c fits v =
    let c' = poll io.selected c in
    let w = poll-ConnValid io.selected c fits v in
    elim (Bool-cases (is_some c'.sockfd)) [
      | inl up ↦ rw up (record {
        frame = w.frame;
        open_frame = w.open_frame;
        storage = w.storage;
        tries = w.tries;
        ring = cdr_send-IsValid io c'.buff w.ring;
      })
      | inr down ↦ rw down w
    ]

pub ConnValid-sockfd :
    (fd : Option ℕ) (c : CdrConn) → ConnValid c → ConnValid (record c { sockfd = fd })
ConnValid-sockfd fd c v = record {
  frame = v.frame;
  open_frame = v.open_frame;
  storage = v.storage;
  tries = v.tries;
  ring = v.ring;
}

pub ConnValid-buff :
    (b : CdrList) (given : List Cdr) (c : CdrConn)
    → IsValid b
    → ConnValid c
    → ConnValid (record c { buff = b; given = given })
ConnValid-buff b given c w v = record {
  frame = v.frame;
  open_frame = v.open_frame;
  storage = v.storage;
  tries = v.tries;
  ring = w;
}

ensure-ConnValid :
    (io : Round) (fd connect : Option ℕ) (c : CdrConn)
    → Fits io.selected c
    → ConnValid c
    → ConnValid (ensure io fd connect c)
unfolding ensure
ensure-ConnValid io (some n) connect c fits v =
    serve-ConnValid io (record c { sockfd = some n }) (Fits-cong io.selected c _ refl fits)
      (ConnValid-sockfd (some n) c v)
ensure-ConnValid io none none c fits v = record {
  frame = v.frame;
  open_frame = v.open_frame;
  storage = v.storage;
  tries = ground arith;
  ring = v.ring;
}
ensure-ConnValid io none (some n) c fits v =
    serve-ConnValid io (record c { sockfd = some n; buff = cdr_reset_send c.buff; given = [] })
      (Fits-cong io.selected c _ refl fits)
      (ConnValid-buff (cdr_reset_send c.buff) [] (record c { sockfd = some n })
        (cdr_reset_send-IsValid c.buff v.ring) (ConnValid-sockfd (some n) c v))

-- A round of `conn_cdr_thread` keeps the receive state within its four bytes, the retry counter below
-- 60 and the ring valid, whatever the system calls return, as long as `recv` stores no more bytes than
-- it was asked for.
pub conn_round-ConnValid :
    (io : Round) (c : CdrConn) → Fits io.selected c → ConnValid c → ConnValid (conn_round io c)
unfolding conn_round
conn_round-ConnValid io c fits v =
    ensure-ConnValid io (if io.reload then none else c.sockfd) io.connect c fits v
