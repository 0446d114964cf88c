-- ===== src/Counters.antt =====
-- The counters of src/counter.c and the operations of src/atomic.h on them. The three types of atomic.h have the
-- same operations, and differ in the width of the counter and of what an operation returns.
pub mod Order
mod Examples
use vpu.Common.{ℕ, ◌+◌, ◌-◌, ◌%◌, ◌^◌, Bool, List, [], ◌∷◌, ◌==◌}

-- the widths of `cnt` and of the results
pub record Atomic : Type 0 where
  pub width : ℕ
  pub result : ℕ

abbrev pub atomic16_t : Atomic
atomic16_t = record { width = 16; result = 16 }

abbrev pub atomic32_t : Atomic
atomic32_t = record { width = 32; result = 32 }

-- its functions that return a number return 32 bits of it
abbrev pub atomic64_t : Atomic
atomic64_t = record { width = 64; result = 32 }

unfoldable pub atomic_init : ℕ
atomic_init = 0

unfoldable pub atomic_set : Atomic → ℕ → ℕ
atomic_set t new_value = new_value % 2 ^ t.width

unfoldable pub atomic_clear : ℕ
atomic_clear = 0

-- Each operation gives the new value and, where it returns one, its result.
unfoldable pub atomic_add : Atomic → ℕ → ℕ → ℕ × ℕ
atomic_add t cnt inc = ((cnt + inc) % 2 ^ t.width, cnt % 2 ^ t.result)

unfoldable pub atomic_sub : Atomic → ℕ → ℕ → ℕ × ℕ
atomic_sub t cnt dec = ((cnt + (2 ^ t.width - dec % 2 ^ t.width)) % 2 ^ t.width, cnt % 2 ^ t.result)

unfoldable pub atomic_inc : Atomic → ℕ → ℕ
atomic_inc t cnt = (atomic_add t cnt 1).0

unfoldable pub atomic_dec : Atomic → ℕ → ℕ
atomic_dec t cnt = (atomic_sub t cnt 1).0

unfoldable pub atomic_add_return : Atomic → ℕ → ℕ → ℕ × ℕ
atomic_add_return t cnt inc = let new = (cnt + inc) % 2 ^ t.width in (new, new % 2 ^ t.result)

unfoldable pub atomic_sub_return : Atomic → ℕ → ℕ → ℕ × ℕ
atomic_sub_return t cnt dec =
    let new = (cnt + (2 ^ t.width - dec % 2 ^ t.width)) % 2 ^ t.width in (new, new % 2 ^ t.result)

-- compares the whole value
unfoldable pub atomic_inc_and_test : Atomic → ℕ → ℕ × Bool
atomic_inc_and_test t cnt = let new = (cnt + 1) % 2 ^ t.width in (new, new == 0)

-- the operations that threads make on a counter that they share
pub data Op : Type 0 where
  add : ℕ → Op
  sub : ℕ → Op

unfoldable pub apply : Atomic → ℕ → Op → ℕ
apply t cnt (add n) = (atomic_add t cnt n).0
apply t cnt (sub n) = (atomic_sub t cnt n).0

unfoldable pub apply_all : Atomic → List Op → ℕ → ℕ
apply_all t [] cnt = cnt
apply_all t (a ∷ ops) cnt = apply_all t ops (apply t cnt a)

-- the variables of src/counter.c
pub record AllCounters : Type 0 where
  pub all_pkts : ℕ
  pub lost_pkts : ℕ
  pub voice_pkts : ℕ
  pub other_pkts : ℕ
  pub call_start : ℕ
  pub call_end : ℕ
  pub call_online : ℕ
  pub call_timeout : ℕ
  pub file_ok : ℕ
  pub file_fail : ℕ
  pub fax_lost : ℕ
  pub fax_enqueue : ℕ
  pub fax_dequeue : ℕ
  pub fax_send : ℕ
  pub fax_ack : ℕ
  pub fax_yes : ℕ
  pub fax_no : ℕ

-- `fax_send` and `fax_ack` are not set
unfoldable pub init_atomic_counter : AllCounters → AllCounters
init_atomic_counter s = record s {
  all_pkts = atomic_init;
  lost_pkts = atomic_init;
  voice_pkts = atomic_init;
  other_pkts = atomic_init;
  call_start = atomic_init;
  call_end = atomic_init;
  call_online = atomic_init;
  call_timeout = atomic_init;
  file_ok = atomic_init;
  file_fail = atomic_init;
  fax_lost = atomic_init;
  fax_enqueue = atomic_init;
  fax_dequeue = atomic_init;
  fax_yes = atomic_init;
  fax_no = atomic_init;
}
