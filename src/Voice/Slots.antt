-- ===== src/Voice/Slots.antt =====
-- Which slot of `voice_file[SR155_NUM][E1_NUM][TS_NUM]` a call belongs to: `get_file_struct` of
-- src/voice_parser.c, the table itself, and the choice of a worker in src/vpu_worker.c.
use vpu.Common.{
  ℕ, ◌/◌, ◌%◌, ◌^◌, ◌<◌, ◌≡◌, Bool, Option, none, some, leb, ◌==◌, if◌then◌else◌, ◌&&◌, ◌||◌, arith,
}
use vpu.Voice.{VoiceFile, zero_file}

pub record Slot : Type 0 where
  pub sr155_no : ℕ
  pub e1_no : ℕ
  pub ts_no : ℕ

-- the seventeen bits of a call id that say where the call runs
abbrev pub pos : ℕ → ℕ
pos callid = callid / 2 ^ 15 % 2 ^ 17

-- the three fields, each a uint8_t
abbrev pub slot_of : ℕ → Slot
slot_of callid = record {
  sr155_no = pos callid / 2 ^ 11 % 256;
  e1_no = pos callid / 2 ^ 5 % 64 % 256;
  ts_no = pos callid % 32 % 256;
}

-- `get_file_struct`, with the index in place of the address
unfoldable pub get_file_struct : ℕ → Option Slot
get_file_struct callid =
    let s = slot_of callid in
    if leb 64 s.sr155_no || (leb 64 s.e1_no || leb 32 s.ts_no) then none else some s

abbrev pub Table : Type 0
Table = Slot → VoiceFile

abbrev pub same_slot : Slot → Slot → Bool
same_slot s t = s.sr155_no == t.sr155_no && (s.e1_no == t.e1_no && s.ts_no == t.ts_no)

unfoldable pub store : Slot → VoiceFile → Table → Table
store s f table t = if same_slot s t then f else table t

-- `ts_no % WORKER_NUM` in `vpu_io_thread`, from the same bits
unfoldable pub worker_of : ℕ → ℕ
worker_of callid = pos callid % 32 % 256 % 8

-- `init_voice_file`
unfoldable pub init_voice_file : Table
init_voice_file s = zero_file

-- Every call id leads to a slot inside the table: the test for NULL of the callers never succeeds.
pub get_file_struct_total :
    (callid : ℕ)
    → (get_file_struct callid ≡ some (slot_of callid))
      × ((slot_of callid).sr155_no < 64)
      × ((slot_of callid).e1_no < 64)
      × ((slot_of callid).ts_no < 32)
unfolding get_file_struct
get_file_struct_total callid = ground arith

-- Call ids that lead to the same slot agree on the seventeen bits: calls at different places of the
-- trunks never share a slot.
pub get_file_struct_injective : (a b : ℕ) → get_file_struct a ≡ get_file_struct b → pos a ≡ pos b
unfolding get_file_struct
get_file_struct_injective a b e = ground arith

-- Packets that reach the same slot are parsed by the same worker thread.
pub same_slot-worker_of :
    (a b : ℕ) → get_file_struct a ≡ get_file_struct b → worker_of a ≡ worker_of b
unfolding worker_of
same_slot-worker_of a b e = omega (arith, get_file_struct_injective a b e)
