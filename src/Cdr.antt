-- ===== src/Cdr.antt =====
-- The ring of call detail records between the workers, the fax thread and the sender:
-- src/send_cdr.h and src/send_cdr.c (`g_cdr_buff` and the functions that hold its lock).
-- The three indices are `unsigned short`, so each sum and difference is taken modulo 65536.
pub mod Inv
pub mod Slice
pub mod Refine
pub mod Conn
pub mod Socket
mod Examples
use vpu.Common.{
  ℕ, ◌+◌, ◌-◌, ◌*◌, ◌/◌, ◌%◌, ◌^◌, Bool, true, false, Option, none, some, List, [], ◌∷◌, ltb, leb,
  ◌==◌, if◌then◌else◌, length, get_or, set, take, drop, replicate,
}

-- `STRUCT_CDR` of src/fax_queue.h
pub record Cdr : Type 0 where
  pub callid : ℕ
  pub time : ℕ
  pub path : ℕ
  pub callflag : ℕ
  pub ruleflag : ℕ
  pub recv3 : ℕ

-- `STRUCT_CDR_LIST` without its lock: every function below runs with the lock held.
pub record CdrList : Type 0 where
  pub cdr_buf : List Cdr
  pub ack : ℕ
  pub send : ℕ
  pub wait : ℕ

abbrev pub zero_cdr : Cdr
zero_cdr = record { callid = 0; time = 0; path = 0; callflag = 0; ruleflag = 0; recv3 = 0 }

-- `cdr_init`, with `n` for the 65536 entries of the array
pub cdr_init : ℕ → CdrList
cdr_init n = record { cdr_buf = replicate n zero_cdr; ack = 0; send = 1; wait = 1 }

-- The first test of `cdr_insert`: a full ring gives up its oldest record, sent or not.
pub make_room : CdrList → CdrList
make_room b =
    if b.wait == b.ack
    then (let ack = (b.ack + 1) % 65536 in
        record b { ack = ack; send = if ack == b.send then (b.send + 1) % 65536 else b.send })
    else b

pub cdr_insert : Cdr → CdrList → CdrList
cdr_insert signal b =
    let b' = make_room b in
    record b' { cdr_buf = set b'.cdr_buf b'.wait signal; wait = (b'.wait + 1) % 65536 }

-- how many records `cdr_send` copies: those up to `wait` or the end of the array, 16 at most
pub batch_num : CdrList → ℕ
batch_num b =
    let num = if ltb b.wait b.send then 65536 - b.send else b.wait - b.send in
    if ltb 16 num then 16 else num

-- What `cdr_send` does under the lock: the index and the records that it will send, if there are any.
pub cdr_take : CdrList → Option (ℕ × List Cdr) × CdrList
cdr_take b =
    if b.send == b.wait
    then (none, b)
    else (let num = batch_num b in
        (
          some (b.send, take num (drop b.send b.cdr_buf)),
          record b { send = (b.send + num) % 65536 },
        ))

-- the six bytes that go before the records
pub cdr_header : ℕ → ℕ → List ℕ
cdr_header send_len num = 0 ∷ 4 ∷ (send_len / 2 ^ 8) ∷ (send_len % 256) ∷ 0 ∷ (num % 256) ∷ []

pub cdr_update_ack : ℕ → CdrList → CdrList
cdr_update_ack ack b =
    let send_num = (b.send + 2 * 65536 - 1 - b.ack) % 65536 in
    let ack_num = (ack + 65536 - b.ack) % 65536 in
    if leb ack_num send_num then record b { ack = ack } else b

pub cdr_reset_send : CdrList → CdrList
cdr_reset_send b = record b { send = (b.ack + 1) % 65536 }
