-- ===== src/Voice/Parser/Packet.antt =====
-- The fields that `voice_parser` of src/voice_parser.c takes from a packet, and what it asks the system.
use vpu.Common.{ℕ, ◌+◌, ◌*◌, ◌^◌, Bool, Option, List, byte_at, read_be16}
use vpu.Voice.Files.{FileSystem}

-- the fields that the parser takes from a packet
pub record Header : Type 0 where
  pub callid : ℕ
  pub calldir : ℕ
  pub ccase : ℕ
  pub data_mark : ℕ
  pub data_no : ℕ
  pub data_len : ℕ

-- What the system answers during a call: `time(NULL)` twice, the file system, the head of the free
-- fax queue (`none` if it is empty), and whether the player takes a whole buffer, twice.
pub record Env : Type 0 where
  pub now : ℕ
  pub start_time : ℕ
  pub files : FileSystem
  pub free_node : Option ℕ
  pub player_full : Bool
  pub player_end : Bool

-- memcpy of eight bytes into a uint64_t, on the little-endian host
abbrev pub read_le64 : List ℕ → ℕ → ℕ
read_le64 pkt i =
    byte_at pkt i
    + 2 ^ 8 * byte_at pkt (i + 1)
    + 2 ^ 16 * byte_at pkt (i + 2)
    + 2 ^ 24 * byte_at pkt (i + 3)
    + 2 ^ 32 * byte_at pkt (i + 4)
    + 2 ^ 40 * byte_at pkt (i + 5)
    + 2 ^ 48 * byte_at pkt (i + 6)
    + 2 ^ 56 * byte_at pkt (i + 7)

abbrev pub header_of : List ℕ → Header
header_of pkt = record {
  callid = read_le64 pkt 20;
  calldir = byte_at pkt 28;
  ccase = byte_at pkt 29;
  data_mark = byte_at pkt 33;
  data_no = byte_at pkt 34;
  data_len = read_be16 pkt 35;
}
