-- ===== src/Cdr/Examples.antt =====
-- The theorems on src/send_cdr.c at a ring with one record, and tests of the loops.
use vpu.Common.{
  ℕ, ◌+◌, ◌%◌, ◌≤◌, ◌<◌, ◌≡◌, refl, ◌⊎◌, ◌↔◌, true, false, Option, none, some, List, [], ◌∷◌, ◌++◌,
  arith, take, length,
}
use vpu.Cdr.{
  Cdr, CdrList, cdr_init, cdr_insert, cdr_take, cdr_header, cdr_update_ack, cdr_reset_send,
}
use vpu.Cdr.Inv.{IsValid, cdr_init-IsValid, cdr_insert-IsValid}
use vpu.Cdr.Slice.{slice}
use vpu.Cdr.Refine.{
  log, log_insert, Moved, covered, cdr_insert_refines, cdr_take_refines, cdr_reset_send_refines,
  cdr_update_ack_refines,
}
use vpu.Cdr.Socket.{failed, sock_send_buf, is_done, sock_send_buf_prefix, sock_send_buf_ends}
use vpu.Cdr.Conn.{CdrConn, Round, readable, conn_init, conn_round}
use vpu.Cdr.Conn.Inv.{ConnValid, conn_round-ConnValid}
use vpu.Cdr.Conn.Deliver.{Steps}
use vpu.Cdr.Conn.Reconnect.{reconnect_keeps_partial_frame, opening, closing}

abbrev record_one : Cdr
record_one = record { callid = 77; time = 5; path = 1; callflag = 0; ruleflag = 1; recv3 = 0 }

abbrev empty : CdrList
empty = cdr_init 65536

abbrev one : CdrList
one = cdr_insert record_one empty

empty-IsValid : IsValid empty
empty-IsValid = (cdr_init-IsValid 65536 refl).0

one-IsValid : IsValid one
one-IsValid = cdr_insert-IsValid record_one empty empty-IsValid

cdr_insert_refines_example : log one ≡ log_insert record_one (log empty)
cdr_insert_refines_example = cdr_insert_refines record_one empty empty-IsValid

cdr_take_refines_example : Moved one (cdr_take one).0 (cdr_take one).1
cdr_take_refines_example = cdr_take_refines one one-IsValid

cdr_reset_send_refines_test :
    ((log (cdr_reset_send one)).in_flight ≡ [])
    × ((log (cdr_reset_send one)).waiting ≡ (log one).in_flight ++ (log one).waiting)
cdr_reset_send_refines_test = cdr_reset_send_refines one one-IsValid

cdr_update_ack_refines_test :
    ((covered 1 one ≤ length (log one).in_flight)
      × ((log one).in_flight
          ≡ slice one.cdr_buf ((one.ack + 1) % 65536) (covered 1 one)
            ++ (log (cdr_update_ack 1 one)).in_flight)
      × ((log (cdr_update_ack 1 one)).waiting ≡ (log one).waiting))
    ⊎ ((length (log one).in_flight < covered 1 one) × (cdr_update_ack 1 one ≡ one))
cdr_update_ack_refines_test = cdr_update_ack_refines 1 one (omega arith) one-IsValid

header_test : cdr_header 0x1234 16 ≡ 0 ∷ 4 ∷ 0x12 ∷ 0x34 ∷ 0 ∷ 16 ∷ []
unfolding cdr_header
header_test = refl

abbrev text : List ℕ
text = 1 ∷ 2 ∷ 3 ∷ 4 ∷ 5 ∷ []

abbrev rets : List (Option ℕ)
rets = some 2 ∷ some 1 ∷ some 2 ∷ some 1 ∷ some 1 ∷ []

abbrev broken : List (Option ℕ)
broken = some 2 ∷ some 1 ∷ none ∷ []

sock_send_buf_test : sock_send_buf broken text 0 5 ≡ (failed, 1 ∷ 2 ∷ 3 ∷ [])
unfolding sock_send_buf
sock_send_buf_test = refl

sock_send_buf_prefix_test :
    ((sock_send_buf broken text 0 5).1 ≡ take (length (sock_send_buf broken text 0 5).1) text)
    × (length (sock_send_buf broken text 0 5).1 ≤ 5)
    × ((is_done (sock_send_buf broken text 0 5).0 ≡ true)
        ↔ (length (sock_send_buf broken text 0 5).1 ≡ 5))
sock_send_buf_prefix_test = sock_send_buf_prefix broken text 5 (omega arith) (omega arith)

sock_send_buf_ends_test : is_done (sock_send_buf rets text 0 5).0 ≡ true
sock_send_buf_ends_test = sock_send_buf_ends rets text 5 (omega arith) (omega arith)

abbrev start : CdrConn
start = conn_init one

start-ConnValid : ConnValid start
start-ConnValid = record {
  frame = refl;
  open_frame = omega arith;
  storage = refl;
  tries = omega arith;
  ring = one-IsValid;
}

-- connects, and reads two bytes
abbrev half_frame : Round
half_frame = record {
  reload = false;
  connect = some 7;
  selected = readable (0 ∷ 5 ∷ []);
  header_sent = true;
  records_sent = true;
}

conn_round-ConnValid_example : ConnValid (conn_round half_frame start)
conn_round-ConnValid_example = conn_round-ConnValid half_frame start (omega arith) start-ConnValid

abbrev linked : CdrConn
linked = record start {
  sockfd = some 7;
  remain_len = 2;
  recv_len = 2;
  recv_data = 0 ∷ 5 ∷ 0 ∷ 0 ∷ [];
}

linked-ConnValid : ConnValid linked
linked-ConnValid = record {
  frame = refl;
  open_frame = omega arith;
  storage = refl;
  tries = omega arith;
  ring = one-IsValid;
}

reconnect_keeps_partial_frame_test :
    let d = conn_round (opening 8) (conn_round closing linked) in
    (d.sockfd ≡ some 8) × (d.recv_len ≡ 2) × (d.remain_len ≡ 2) × (d.recv_data ≡ 0 ∷ 5 ∷ 0 ∷ 0 ∷ [])
reconnect_keeps_partial_frame_test = reconnect_keeps_partial_frame linked 7 8 linked-ConnValid refl
