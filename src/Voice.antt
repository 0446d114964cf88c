-- ===== src/Voice.antt =====
-- The state behind src/voice_parser.h and src/voice_parser.c: one `voice_file_info_t` for each time
-- slot, the counters of src/counter.h that the parser moves, and the effects that leave the process.
-- Lengths are uint32_t and sizes of the source's constants; a FILE pointer, a socket or a pointer to a
-- fax node is a number, with `none` (or 0, for a socket) where the source has NULL.
pub mod Slots
pub mod Files
pub mod Parser
pub mod Bounds
pub mod Tables
pub mod Accounting
pub mod Stream
pub mod Release
pub mod Idle
pub mod Naming
mod Examples
use Prim.Native.Nat.{bit_xor}
use vpu.Common.{
  ℕ, zero, suc, ◌+◌, ◌-◌, ◌%◌, ◌^◌, ◌≡◌, Option, none, List, [], ◌∷◌, map, length, replicate,
  length-replicate, byte_at,
}
use vpu.Cdr.{Cdr, zero_cdr}

-- VOICE_BUF_SIZE * MAX_BUF_NUM
abbrev pub voice_buf : ℕ
voice_buf = 8192

-- FAX_BUF_SIZE of src/fax_queue.h
abbrev pub fax_buf : ℕ
fax_buf = 524288

-- the file names and `dir_no` are not kept here: see `Files.FileSystem`
pub record VoiceFile : Type 0 where
  pub callid : ℕ
  pub data_up : List ℕ
  pub data_down : List ℕ
  pub data_count_up : ℕ
  pub data_count_down : ℕ
  pub fp_up : Option ℕ
  pub fp_down : Option ℕ
  pub case_mark : ℕ
  pub data_mark : ℕ
  pub up_no : ℕ
  pub down_no : ℕ
  pub up_lost : ℕ
  pub down_lost : ℕ
  pub tx_fd : ℕ
  pub cdr_node : Option ℕ
  pub cdr : Cdr
  pub fax_data_len_up : ℕ
  pub fax_data_len_down : ℕ
  pub update_time : ℕ
  pub up_end_flag : ℕ
  pub down_end_flag : ℕ

-- The counters that src/voice_parser.c moves, each a uint64_t.
pub record Counters : Type 0 where
  pub call_start : ℕ
  pub call_end : ℕ
  pub call_online : ℕ
  pub call_timeout : ℕ
  pub file_ok : ℕ
  pub file_fail : ℕ
  pub fax_lost : ℕ
  pub fax_enqueue : ℕ

-- What leaves the slot: data for a FILE, a FILE or socket closed, data for a player, a fax node cleared,
-- bytes for a buffer of a fax node at an offset, a node put into the fax queue with its record, a record for the CDR ring.
pub data Effect : Type 0 where
  fwrite : ℕ → List ℕ → Effect
  fclose : ℕ → Effect
  play : ℕ → List ℕ → Effect
  close : ℕ → Effect
  clear_node : ℕ → Effect
  fax_up : ℕ → ℕ → List ℕ → Effect
  fax_down : ℕ → ℕ → List ℕ → Effect
  enqueue : ℕ → Cdr → Effect
  insert_cdr : Cdr → Effect

-- a slot, the counters, and the effects so far, in order
pub record World : Type 0 where
  pub file : VoiceFile
  pub count : Counters
  pub out : List Effect

-- atomic64_add and atomic64_sub of src/atomic.h by one
abbrev pub add1 : ℕ → ℕ
add1 n = (n + 1) % 2 ^ 64

abbrev pub sub1 : ℕ → ℕ
sub1 n = (n + 2 ^ 64 - 1) % 2 ^ 64

-- an array of the size of `data_up` that memset has cleared
pub zero_data : List ℕ
zero_data = replicate 8192 0

pub length-zero_data : length zero_data ≡ 8192
unfolding zero_data
length-zero_data = length-replicate {A = ℕ} 8192 0

-- a `voice_file_info_t` that memset has cleared
abbrev pub zero_file : VoiceFile
zero_file = record {
  callid = 0;
  data_up = zero_data;
  data_down = zero_data;
  data_count_up = 0;
  data_count_down = 0;
  fp_up = none;
  fp_down = none;
  case_mark = 0;
  data_mark = 0;
  up_no = 0;
  down_no = 0;
  up_lost = 0;
  down_lost = 0;
  tx_fd = 0;
  cdr_node = none;
  cdr = zero_cdr;
  fax_data_len_up = 0;
  fax_data_len_down = 0;
  update_time = 0;
  up_end_flag = 0;
  down_end_flag = 0;
}

-- memcpy of `n` bytes from offset `i` of a packet
abbrev pub bytes_from : List ℕ → ℕ → ℕ → List ℕ
bytes_from pkt i zero = []
bytes_from pkt i (suc n) = byte_at pkt i ∷ bytes_from pkt (i + 1) n

-- `encrypt_voice` on a piece of a buffer
unfoldable pub encrypt_voice : List ℕ → List ℕ
encrypt_voice bytes = map (λ b. bit_xor b 0x53) bytes
