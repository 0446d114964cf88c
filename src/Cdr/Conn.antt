-- ===== src/Cdr/Conn.antt =====
-- The connection to the CDR server: `cdr_send` and one round of the loop of `conn_cdr_thread` in
-- src/send_cdr.c. What the system calls return in a round is a record of inputs.
pub mod Inv
pub mod Steps
pub mod Deliver
pub mod Reconnect
use vpu.Common.{
  ℕ, zero, suc, ◌+◌, ◌-◌, ◌*◌, ◌/◌, ◌%◌, ◌^◌, ◌≤◌, ◌<◌, ◌≡◌, refl, Bool, true, false, Option, none,
  some, List, [], ◌∷◌, ◌++◌, ltb, leb, ◌==◌, if◌then◌else◌, is_some, length, take, drop, arith,
  byte_at, Bool-cases, inl, inr, ◌⊎◌, blit, ◌∙◌, ap, length-blit,
}
use vpu.Cdr.{Cdr, CdrList, cdr_header, cdr_take, cdr_update_ack, cdr_reset_send}

-- what `cdr_send` writes: a header, and the records behind it
pub record Batch : Type 0 where
  pub header : List ℕ
  pub records : List Cdr

-- The three results of `select`, and of the `recv` that follows a readable socket.
pub data Select : Type 0 where
  readable : List ℕ → Select
  timeout : Select
  failed : Select

-- What one round of the loop meets. `connect` is the result of `connect2cdr`; the list of `readable`
-- holds the bytes that `recv` stores, none for a return value of 0 or less; `header_sent` and
-- `records_sent` say whether the calls of `sock_send_buf` succeed.
pub record Round : Type 0 where
  pub reload : Bool
  pub connect : Option ℕ
  pub selected : Select
  pub header_sent : Bool
  pub records_sent : Bool

-- The local variables of `conn_cdr_thread`, and `g_cdr_buff`; for the theorems also the records of the batches that
-- `cdr_send` has made for the connection.
pub record CdrConn : Type 0 where
  pub sockfd : Option ℕ
  pub conn_times : ℕ
  pub remain_len : ℕ
  pub recv_len : ℕ
  pub recv_data : List ℕ
  pub buff : CdrList
  pub given : List Cdr

abbrev pub conn_init : CdrList → CdrConn
conn_init b = record {
  sockfd = none;
  conn_times = 0;
  remain_len = 4;
  recv_len = 0;
  recv_data = 0 ∷ 0 ∷ 0 ∷ 0 ∷ [];
  buff = b;
  given = [];
}

-- A complete frame: command 5 carries an acknowledgement number.
pub handle_frame : CdrConn → CdrConn
handle_frame c =
    let buff =
      if byte_at c.recv_data 1 == 5
      then cdr_update_ack ((byte_at c.recv_data 2 * 2 ^ 8 + byte_at c.recv_data 3) % 65536) c.buff
      else c.buff in
    record c { remain_len = 4; recv_len = 0; buff = buff }

-- `recv` stored these bytes behind those of the frame that are there
abbrev pub received : List ℕ → CdrConn → CdrConn
received bytes c = record c {
  remain_len = c.remain_len - length bytes;
  recv_len = c.recv_len + length bytes;
  recv_data = blit c.recv_data c.recv_len bytes;
}

-- the branch of a readable socket
pub on_readable : List ℕ → CdrConn → CdrConn
on_readable bytes c =
    if c.remain_len == 0
    then handle_frame c
    else if length bytes == 0
    then record c { sockfd = none }
    else (let c' = received bytes c in if c'.remain_len == 0 then handle_frame c' else c')

-- what follows the `select`
pub poll : Select → CdrConn → CdrConn
poll (readable bytes) c = on_readable bytes c
poll timeout c = c
poll failed c = c

-- the part of `cdr_send` behind the lock: whether both writes succeed, and the batch that it made
pub send_batch : Round → Option (ℕ × List Cdr) → Bool × Option Batch
send_batch io none = (true, none)
send_batch io (some (send_len, records)) = (
  if io.header_sent then io.records_sent else false,
  some (record { header = cdr_header send_len (length records); records = records }),
)

-- `cdr_send`: whether it succeeds, the batch that it made, and the ring
pub cdr_send : Round → CdrList → Bool × Option Batch × CdrList
cdr_send io b =
    let (took, b') = cdr_take b in let (success, batch) = send_batch io took in (success, batch, b')

abbrev pub records_of : Option Batch → List Cdr
records_of none = []
records_of (some batch) = batch.records

-- the part of a round behind a successful connection
pub serve : Round → CdrConn → CdrConn
serve io c =
    let c' = poll io.selected c in
    let (success, batch, b) = cdr_send io c'.buff in
    if is_some c'.sockfd
    then record c' {
      sockfd = if success then c'.sockfd else none;
      buff = b;
      given = c'.given ++ records_of batch;
    }
    else c'

-- The head of a round: `fd` is `sockfd` behind the test of the reload flag, and the second argument
-- is what `connect2cdr` would return.
pub ensure : Round → Option ℕ → Option ℕ → CdrConn → CdrConn
ensure io (some n) connect c = serve io (record c { sockfd = some n })
ensure io none none c = record c {
  sockfd = none;
  conn_times = if leb 60 (c.conn_times + 1) then 0 else c.conn_times + 1;
}
ensure io none (some n) c =
    serve io (record c { sockfd = some n; buff = cdr_reset_send c.buff; given = [] })

-- One round of the loop.
pub conn_round : Round → CdrConn → CdrConn
conn_round io c = ensure io (if io.reload then none else c.sockfd) io.connect c
