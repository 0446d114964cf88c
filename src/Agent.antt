-- ===== src/Agent.antt =====
-- src/conn_serv.c: the packets for the guard and the management agent (MA), and the parsers of the MA's
-- commands; `change_fax_status` of src/conf.c. The header of a packet (`struct pkt_header`) is defined
-- outside the repository; it is kept as a record, and its size is an argument.
pub mod Packets
pub mod Reload
pub mod Dispatch
pub mod Counter
pub mod Status
pub mod Conns
mod Examples
use vpu.Common.{
  ℕ, zero, suc, ◌+◌, ◌-◌, ◌*◌, ◌/◌, ◌%◌, ◌^◌, Bool, true, false, Option, none, some, List, [], ◌∷◌,
  ◌++◌, ltb, leb, ◌==◌, ◌!=◌, if◌then◌else◌, ◌&&◌, ◌||◌, byte_at, read_be16, read_be32, be16, be32,
  map, length, take, drop,
}

-- `vpu_fill_info`: the bytes that it writes. `len` is a uint16_t.
unfoldable pub vpu_fill_info : List ℕ → ℕ → ℕ → List ℕ
vpu_fill_info info len type = be16 type ++ be16 len ++ take len info

-- the fields of `struct pkt_header`
pub record PktHeader : Type 0 where
  pub ver : ℕ
  pub reply : ℕ
  pub cmd : ℕ
  pub num : ℕ
  pub len : ℕ

pub record Packet : Type 0 where
  pub header : PktHeader
  pub payload : List ℕ

-- A container of the type `type` around the fields, and the header in front: the end of the three
-- functions that fill a packet. `size` is sizeof(struct pkt_header).
unfoldable pub wrap : ℕ → ℕ → ℕ → ℕ → List ℕ → Packet
wrap size cmd num type fields =
    let payload_len = length fields % 65536 in
    record {
      header = record {
        ver = 1;
        reply = 0;
        cmd = cmd;
        num = num;
        len = (payload_len + 4 + size) % 65536;
      };
      payload = be16 type ++ be16 payload_len ++ fields;
    }

unfoldable pub vpu_fill_regsguard_packet : ℕ → ℕ → ℕ → ℕ → ℕ → List ℕ → Packet
vpu_fill_regsguard_packet size num pid sn vpu_id server_ip = wrap size 16 num 1 (
    vpu_fill_info (be32 pid) 4 2
    ++ vpu_fill_info (be32 sn) 4 3
    ++ vpu_fill_info (be32 vpu_id) 4 4
    ++ vpu_fill_info server_ip (length server_ip % 65536) 5)

-- `get_status`
abbrev pub get_status : ℕ
get_status = 1

unfoldable pub vpu_fill_alive_packet : ℕ → ℕ → Packet
vpu_fill_alive_packet size num = wrap size 5 num 4 (vpu_fill_info (be16 get_status) 2 1)

unfoldable pub vpu_fill_regma_packet : ℕ → ℕ → ℕ → ℕ → Packet
vpu_fill_regma_packet size num pid sn =
    wrap size 16 num 2 (vpu_fill_info (be32 pid) 4 1 ++ vpu_fill_info (be32 sn) 4 2)

-- `fax_info_t` as far as `change_fax_status` sees it
pub record FaxInfo : Type 0 where
  pub id : ℕ
  pub flag : ℕ

-- `change_fax_status` on the first `fax_num` entries; `none` is -1
unfoldable pub change_fax_status : ℕ → ℕ → List FaxInfo → Option (List FaxInfo)
change_fax_status fax_id status infos =
    if fax_id == 0
    then none
    else some (map (λ i. if i.id == fax_id then record i { flag = status } else i) infos)

-- How a command parser ends: its return value, or a read behind the memory at `data` (which holds the
-- data and whatever follows it).
pub data Ending : Type 0 where
  returned0 returned_1 overread : Ending

pub data Conf : Type 0 where
  svm_conf dms_conf vpu_conf other_name : Conf

-- the three memcmp of `ma_cmd_reload`: which configuration is loaded again
unfoldable pub conf_of : List ℕ → Conf
conf_of name =
    let a = byte_at name 0 in
    let b = byte_at name 1 in
    let c = byte_at name 2 in
    let yaml =
      (byte_at name 3 == 46)
      && ((byte_at name 4 == 121)
          && ((byte_at name 5 == 97) && ((byte_at name 6 == 109) && (byte_at name 7 == 108)))) in
    if yaml && ((a == 115) && ((b == 118) && (c == 109)))
    then svm_conf
    else if yaml && ((a == 100) && ((b == 109) && (c == 115)))
    then dms_conf
    else if yaml && ((a == 118) && ((b == 112) && (c == 117)))
    then vpu_conf
    else other_name

-- The loop of `ma_cmd_reload` at offset `at` of the memory, with the configurations loaded so far; on
-- fuel. `left` is a uint32_t, to which the code adds the length of each field.
unfoldable pub reload_loop : ℕ → List ℕ → ℕ → ℕ → List Conf → Option (Ending × List Conf)
reload_loop zero mem at left done = none
reload_loop (suc fuel) mem at left done =
    let type = read_be16 mem at in
    let len = read_be16 mem (at + 2) in
    let name = take len (drop (at + 4) mem) in
    let rest =
      reload_loop fuel mem (at + 4 + len) ((left - 4 + len) % 2 ^ 32)
        (done ++ (conf_of name ∷ [])) in
    if ltb left 4
    then some (returned0, done)
    else if ltb (length mem) (at + 4)
    then some (overread, done)
    else if ltb (left - 4) len || (ltb 255 len || leb len 8)
    then some (returned_1, done)
    else if type == 1
    then (if ltb (length mem) (at + 4 + len) then some (overread, done) else rest)
    else some (returned_1, done)

-- `ma_cmd_reload`; `mem` is the memory from `data` on
unfoldable pub ma_cmd_reload : ℕ → List ℕ → ℕ → Option (Ending × List Conf)
ma_cmd_reload fuel mem data_len =
    if data_len == 0 then some (returned0, []) else reload_loop fuel mem 0 data_len []
