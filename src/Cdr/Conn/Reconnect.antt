-- ===== src/Cdr/Conn/Reconnect.antt =====
-- What a lost connection leaves behind in `conn_cdr_thread` of src/send_cdr.c.
use vpu.Common.{ℕ, ◌≡◌, refl, true, false, Option, none, some, List, [], ◌==◌, arith}
use vpu.Cdr.{Cdr, cdr_take, cdr_reset_send}
use vpu.Cdr.Conn.{
  CdrConn, Round, readable, timeout, on_readable, poll, cdr_send, send_batch, serve, ensure,
  conn_round,
}
use vpu.Cdr.Conn.Inv.{ConnValid}

-- a round in which the peer closes the connection, and one that connects anew and reads nothing
abbrev pub closing : Round
closing = record {
  reload = false;
  connect = none;
  selected = readable [];
  header_sent = true;
  records_sent = true;
}

abbrev pub opening : ℕ → Round
opening n = record {
  reload = false;
  connect = some n;
  selected = timeout;
  header_sent = true;
  records_sent = true;
}

opening-succeeds : (n : ℕ) (took : Option (ℕ × List Cdr)) → (send_batch (opening n) took).0 ≡ true
unfolding send_batch
opening-succeeds n none = refl
opening-succeeds n (some batch) = refl

-- When the connection closes inside a frame, the bytes read so far and their count stay: the new
-- connection starts in the middle of the old frame.
pub reconnect_keeps_partial_frame :
    (c : CdrConn) (fd n : ℕ)
    → ConnValid c
    → c.sockfd ≡ some fd
    → (let d = conn_round (opening n) (conn_round closing c) in
        (d.sockfd ≡ some n)
        × (d.recv_len ≡ c.recv_len)
        × (d.remain_len ≡ c.remain_len)
        × (d.recv_data ≡ c.recv_data))
unfolding conn_round ensure serve poll on_readable cdr_send send_batch
reconnect_keeps_partial_frame c fd n v e =
    let more : (c.remain_len == 0) ≡ false = ground arith in
    rw (e, more) (rw (opening-succeeds n (cdr_take (cdr_reset_send c.buff)).0), refl, refl, refl)
