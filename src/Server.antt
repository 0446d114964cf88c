-- ===== src/Server.antt =====
-- src/file_server.c: the requests that the file server parses, the files that it looks for, and what it
-- answers. A request is the buffer that read(2) fills, a list of bytes.
pub mod Parse
pub mod Lookup
pub mod Serve
pub mod Settled
pub mod Accept
mod Examples
use vpu.Common.{
  ℕ, zero, suc, ◌+◌, ◌-◌, ◌*◌, ◌/◌, ◌%◌, ◌^◌, Bool, true, false, Option, none, some, List, [], ◌∷◌,
  ◌++◌, ltb, leb, ◌==◌, ◌!=◌, if◌then◌else◌, ◌&&◌, ◌||◌, byte_at, read_be16, be16, be32, is_some,
  map, length, min, take, drop,
}
use vpu.Voice.{bytes_from, encrypt_voice}
use vpu.Voice.Files.{mix}
use vpu.Voice.Slots.{Slot, get_file_struct}
use vpu.Voice.Parser.{read_le64}

-- `send_result`, `send_voice_size` and `send_faxpic_size`: the bytes they write
unfoldable pub send_result : ℕ → List ℕ
send_result result = be16 2 ++ be16 2 ++ be16 result

unfoldable pub send_voice_size : ℕ → List ℕ
send_voice_size size = be16 3 ++ be16 4 ++ be32 size

unfoldable pub send_faxpic_size : ℕ → List ℕ
send_faxpic_size size = be16 4 ++ be16 4 ++ be32 size

-- The outputs of `cmd_parser`; `none` is a field whose pointer is still NULL. The eight bytes of the
-- call id are copied as they are.
pub record Request : Type 0 where
  pub callid : Option (List ℕ)
  pub scase : Option ℕ
  pub stime : Option ℕ
  pub stype : Option ℕ

abbrev pub no_fields : Request
no_fields = record { callid = none; scase = none; stime = none; stype = none }

-- the switch on `data_type` at offset `at`; `none` is the default case
unfoldable pub field : List ℕ → ℕ → Request → Option Request
field buf at r =
    let type = read_be16 buf at in
    if type == 1
    then some (record r { callid = some (bytes_from buf (at + 4) 8) })
    else if type == 2
    then some (record r { scase = some (read_be16 buf (at + 4)) })
    else if type == 3
    then some (record r { stime = some (read_be16 buf (at + 4)) })
    else if type == 4
    then some (record r { stype = some (read_be16 buf (at + 4)) })
    else none

-- How the loop of `cmd_parser` ends: over the data, or at a type that it does not know.
pub data Fields : Type 0 where
  all_read : Request → Fields
  unknown : Fields

-- The loop, at offset `at` with `left` bytes to go, on fuel (`none` is a run that is not over).
-- `data_left` is an int and may fall below 0, where the subtraction here stops at 0: both end the loop.
unfoldable pub fields_loop : ℕ → List ℕ → ℕ → ℕ → Request → Option Fields
fields_loop zero buf at left r = none
fields_loop (suc fuel) buf at left r =
    if ltb 4 left
    then (let len = read_be16 buf (at + 2) in
        elim (field buf at r) [
          | none ↦ some unknown
          | some r' ↦ fields_loop fuel buf (at + len + 4) (left - len - 4) r'
        ])
    else some (all_read r)

-- the fields, where all four are there
abbrev pub complete : Request → Option Request
complete r =
    if is_some r.callid && (is_some r.scase && (is_some r.stime && is_some r.stype))
    then some r
    else none

abbrev pub finish : Option Fields → Option (Option Request)
finish none = none
finish (some unknown) = some none
finish (some (all_read r)) = some (complete r)

-- `cmd_parser` on `buf_len` bytes, with fuel: `some none` is -1.
unfoldable pub cmd_parser : ℕ → List ℕ → ℕ → Option (Option Request)
cmd_parser fuel buf buf_len =
    if leb buf_len 4
    then some none
    else if (read_be16 buf 0 != 1) || (read_be16 buf 2 + 4 != buf_len)
    then some none
    else finish (fields_loop fuel buf 4 (buf_len - 4) no_fields)

-- what stat says of a name: the size of a regular file, or `none`
abbrev pub Stat : Type 0
Stat = Option ℕ

-- The loop of `check_voice_file` over the directories, whose two names are given by what stat says of
-- them: the index of the first directory with both files, and twice the smaller size. `st_size` is cut
-- to a uint32_t.
unfoldable pub find_pair : ℕ → List (Stat × Stat) → Option (ℕ × ℕ)
find_pair i [] = none
find_pair i ((up, down) ∷ dirs) = elim (up) [
  | none ↦ find_pair (i + 1) dirs
  | some up_size ↦ elim (down) [
    | none ↦ find_pair (i + 1) dirs
    | some down_size ↦ some (i, 2 * min (up_size % 2 ^ 32) (down_size % 2 ^ 32) % 2 ^ 32)
  ]
]

pub data Where : Type 0 where
  case_dir normal_dir : Where

abbrev pub place : Where → ℕ × ℕ → Where × ℕ × ℕ
place d (i, size) = (d, i, size)

abbrev pub tagged : Where → Option (ℕ × ℕ) → Option (Where × ℕ × ℕ)
tagged d none = none
tagged d (some p) = some (place d p)

-- `check_voice_file`: the directory that it finds the pair in, and `file_size`; `none` is -1
unfoldable pub check_voice_file :
    ℕ → List (Stat × Stat) → List (Stat × Stat) → Option (Where × ℕ × ℕ)
check_voice_file scase cases normals =
    let found = tagged case_dir (find_pair 0 cases) in
    if (scase == 1) || is_some found then found else tagged normal_dir (find_pair 0 normals)

-- `get_fax_pic_info`: the sizes of the pictures that exist, and `data_size`
unfoldable pub get_fax_pic_info : Stat → Stat → List ℕ × ℕ
get_fax_pic_info none none = ([], 0)
get_fax_pic_info none (some down) = (down % 2 ^ 32 ∷ [], (down % 2 ^ 32 + 4) % 2 ^ 32)
get_fax_pic_info (some up) none = (up % 2 ^ 32 ∷ [], (up % 2 ^ 32 + 4) % 2 ^ 32)
get_fax_pic_info (some up) (some down) =
    (up % 2 ^ 32 ∷ down % 2 ^ 32 ∷ [], ((up % 2 ^ 32 + 4) % 2 ^ 32 + (down % 2 ^ 32 + 4)) % 2 ^ 32)

-- How the loop over the two files of a call goes: it is not over, it has left its buffers, or it has ended and
-- written these bytes.
pub data Played : Type 0 where
  unfinished overrun : Played
  played : List ℕ → Played

abbrev pub prepend : List ℕ → Played → Played
prepend xs unfinished = unfinished
prepend xs overrun = overrun
prepend xs (played ys) = played (xs ++ ys)

-- What read(2) of 1024 bytes returns, as a uint32_t, where `left` bytes are left of the file: it fills the buffer
-- where the file does, and behind the last byte it returns 0, or -1 for a file whose reads fail there.
abbrev pub read_len : Bool → ℕ → ℕ
read_len fails left = if left == 0 then (if fails then 4294967295 else 0) else min 1024 left

-- The loop of `file_tx_thread` that reads 1024 bytes of each file and writes them interleaved, on fuel;
-- `ups` and `downs` are what is left of the files. `up_len <= 0` is a test for 0.
unfoldable pub play_loop : ℕ → Bool → Bool → List ℕ → List ℕ → Played
play_loop zero up_fails down_fails ups downs = unfinished
play_loop (suc fuel) up_fails down_fails ups downs =
    let up_len = read_len up_fails (length ups) in
    let down_len = read_len down_fails (length downs) in
    let rest = play_loop fuel up_fails down_fails (drop 1024 ups) (drop 1024 downs) in
    if (up_len != down_len) || (up_len == 0)
    then played []
    else if ltb 1024 up_len
    then overrun
    else prepend (mix (take 1024 ups) (take 1024 downs)) rest

-- a picture that has been opened: its bytes, and whether the reads behind them fail
abbrev pub Picture : Type 0
Picture = List ℕ × Bool

abbrev pub behind : List ℕ → Option (List ℕ) → Option (List ℕ)
behind xs none = none
behind xs (some ys) = some (xs ++ ys)

-- The pictures that could be opened, each with its size in front. `none`: a read of -1 is above 0 as a uint32_t,
-- so that the loop over a picture whose reads fail does not end.
unfoldable pub send_pics : List ℕ → List (Option Picture) → Option (List ℕ)
send_pics [] opened = some []
send_pics (size ∷ sizes) [] = some []
send_pics (size ∷ sizes) (none ∷ opened) = send_pics sizes opened
send_pics (size ∷ sizes) (some (bytes, fails) ∷ opened) =
    let rest = send_pics sizes opened in
    if fails then none else behind (encrypt_voice (be32 size) ++ bytes) rest

-- What `file_tx_thread` finds outside: the two lists of directories, the open files of the pair that it
-- finds, the pictures beside them with what open returns, and the player of each slot.
pub record Outside : Type 0 where
  pub cases : List (Stat × Stat)
  pub normals : List (Stat × Stat)
  pub up_file : Option (List ℕ)
  pub down_file : Option (List ℕ)
  pub pic_up : Stat
  pub pic_down : Stat
  pub pics : List (Option Picture)
  pub up_fails : Bool
  pub down_fails : Bool
  pub tx_fd : Slot → ℕ

-- the bytes written, whether the thread closes the connection, and the slot that it gives it to
pub record Reply : Type 0 where
  pub sent : List ℕ
  pub closed : Bool
  pub player : Option Slot

abbrev pub refuse : Reply
refuse = record { sent = send_result 0; closed = true; player = none }

abbrev pub answer : List ℕ → Option (List ℕ) → Option Reply
answer front none = none
answer front (some bytes) = some (record { sent = front ++ bytes; closed = true; player = none })

-- the bytes of a loop that has ended
abbrev pub ended : Played → Option (List ℕ)
ended unfinished = none
ended overrun = none
ended (played bytes) = some bytes

-- the first branch: a recorded call
unfoldable pub serve_voice : ℕ → Outside → ℕ → Option Reply
serve_voice fuel o scase = elim (check_voice_file scase o.cases o.normals) [
  | none ↦ some refuse
  | some (place, i, file_size) ↦ elim (o.up_file) [
    | none ↦ some refuse
    | some ups ↦ elim (o.down_file) [
      | none ↦ some refuse
      | some downs ↦
          answer (send_result 1 ++ send_voice_size file_size)
            (ended (play_loop fuel o.up_fails o.down_fails ups downs))
    ]
  ]
]

-- the second branch: a call that is going on
unfoldable pub serve_live : Outside → ℕ → Reply
serve_live o callid = elim (get_file_struct callid) [
  | none ↦ refuse
  | some s ↦ if ltb 0 (o.tx_fd s) then refuse else record {
    sent = send_result 1 ++ send_voice_size 0xffffffff;
    closed = false;
    player = some s;
  }
]

-- the third branch: the pictures of a fax
unfoldable pub serve_fax : Outside → ℕ → Option Reply
serve_fax o scase = elim (check_voice_file scase o.cases o.normals) [
  | none ↦ some refuse
  | some found ↦
      let (sizes, data_size) = get_fax_pic_info o.pic_up o.pic_down in
      if length sizes == 0
      then some refuse
      else answer (send_result 1 ++ send_faxpic_size data_size) (send_pics sizes o.pics)
]

abbrev value : Option ℕ → ℕ
value none = 0
value (some n) = n

abbrev bytes : Option (List ℕ) → List ℕ
bytes none = []
bytes (some xs) = xs

-- `file_tx_thread` behind `cmd_parser`; `none` where it does not end, or leaves its buffers
unfoldable pub serve : ℕ → Outside → Request → Option Reply
serve fuel o r =
    let stype = value r.stype in
    let stime = value r.stime in
    let scase = value r.scase in
    if (stype == 0) && (stime == 0)
    then serve_voice fuel o scase
    else if stime == 1
    then some (serve_live o (read_le64 (bytes r.callid) 0))
    else if stype == 1
    then serve_fax o scase
    else some (record { sent = []; closed = false; player = none })
