-- ===== src/Cdr/Inv.antt =====
-- The indices of src/send_cdr.c stay in their circular order `ack < send ≤ wait`.
use vpu.Common.{
  ℕ, ◌+◌, ◌-◌, ◌%◌, ◌≤◌, ◌<◌, ◌≡◌, length, length-set, length-replicate, arith, ◌==◌, false,
}
use vpu.Cdr.{
  Cdr, CdrList, zero_cdr, cdr_init, make_room, cdr_insert, batch_num, cdr_take, cdr_update_ack,
  cdr_reset_send,
}

-- records sent and not yet acknowledged
abbrev pub sent : CdrList → ℕ
sent b = (b.send + 65535 - b.ack) % 65536

-- records not yet acknowledged, sent or not
abbrev pub held : CdrList → ℕ
held b = (b.wait + 65535 - b.ack) % 65536

pub record IsValid (b : CdrList) : Type 0 where
  pub storage : length b.cdr_buf ≡ 65536
  pub ack_in : b.ack < 65536
  pub send_in : b.send < 65536
  pub wait_in : b.wait < 65536
  pub ordered : sent b ≤ held b

-- `cdr_init` leaves a valid, empty ring.
pub cdr_init-IsValid : (n : ℕ) → n ≡ 65536 → IsValid (cdr_init n) × (held (cdr_init n) ≡ 0)
unfolding cdr_init
cdr_init-IsValid n e = omega (arith, length-replicate n zero_cdr)

pub make_room-IsValid : (b : CdrList) → IsValid b → IsValid (make_room b)
unfolding make_room
make_room-IsValid b v = ground arith

pub make_room-held : (b : CdrList) → IsValid b → held (make_room b) < 65535
unfolding make_room
make_room-held b v = ground arith

-- `cdr_insert` keeps the order of the indices, also when it wraps or gives up a record.
pub cdr_insert-IsValid : (s : Cdr) (b : CdrList) → IsValid b → IsValid (cdr_insert s b)
unfolding cdr_insert
cdr_insert-IsValid s b v =
    let b' = make_room b in
    ground (arith, make_room-IsValid b v, make_room-held b v, length-set b'.cdr_buf b'.wait s)

-- A batch holds 1 to 16 of the waiting records, and does not go round the end of the array.
pub batch_num_bounds :
    (b : CdrList)
    → IsValid b
    → (b.send == b.wait) ≡ false
    → (0 < batch_num b)
      × (batch_num b ≤ 16)
      × (b.send + batch_num b ≤ 65536)
      × (batch_num b ≤ held b - sent b)
unfolding batch_num
batch_num_bounds b v h = ground arith

-- `cdr_send` keeps the order of the indices, and copies from inside the array.
pub cdr_take-IsValid :
    (b : CdrList) → IsValid b → IsValid (cdr_take b).1 × (b.send + batch_num b ≤ 65536)
unfolding cdr_take batch_num
cdr_take-IsValid b v = ground arith

-- `cdr_update_ack` keeps the order of the indices, whatever number the peer sends.
pub cdr_update_ack-IsValid :
    (ack : ℕ) (b : CdrList) → ack < 65536 → IsValid b → IsValid (cdr_update_ack ack b)
unfolding cdr_update_ack
cdr_update_ack-IsValid ack b h v = ground arith

-- `cdr_reset_send` keeps the order of the indices.
pub cdr_reset_send-IsValid : (b : CdrList) → IsValid b → IsValid (cdr_reset_send b)
unfolding cdr_reset_send
cdr_reset_send-IsValid b v = ground arith
