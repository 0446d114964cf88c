-- ===== src/Voice/Parser.antt =====
-- `voice_parser` of src/voice_parser.c: the header of a packet, what it does to the slot of its call,
-- and the call of it at the table.
mod Packet
mod Begin
mod Store
pub use Packet.*
unfoldable pub use Begin.*
unfoldable pub use Store.*
use vpu.Common.{
  ℕ, ◌+◌, ◌-◌, ◌*◌, ◌/◌, ◌%◌, ◌^◌, Bool, Option, none, some, List, [], ◌∷◌, ltb, leb, ◌==◌,
  if◌then◌else◌, ◌&&◌, ◌||◌, blit, byte_at, read_be16, not,
}
use vpu.Voice.{
  voice_buf, fax_buf, VoiceFile, Counters, Effect, clear_node, fax_up, fax_down, insert_cdr, World,
  add1, sub1, zero_file, bytes_from, encrypt_voice,
}
use vpu.Voice.Files.{
  FileSystem, emit, open_voice_file, write_voice_file, close_voice_file, send_voice_data,
  close_player, enqueue_node, cleanup_file_struct,
}
use vpu.Voice.Slots.{get_file_struct, Table, store}

-- the block behind `up_end_flag == 1 && down_end_flag == 1`
unfoldable pub end_call : Env → World → World
end_call env w =
    let w1 = record w {
      file = record (w.file) {
        update_time = 0;
        callid = 0;
        up_end_flag = 0;
        down_end_flag = 0;
        up_no = 0;
        down_no = 0;
      };
    } in
    let w2 = close_voice_file (write_voice_file (send_voice_data env.player_end w1)) in
    let w3 = record w2 {
      count = record (w2.count) {
        call_end = add1 w2.count.call_end;
        call_online = sub1 w2.count.call_online;
      };
    } in
    enqueue_node (close_player w3)

unfoldable pub both_ended : VoiceFile → Bool
both_ended f = f.up_end_flag == 1 && f.down_end_flag == 1

-- what happens behind the test for calls that are too long
unfoldable pub handle_packet : Env → Header → List ℕ → World → World
handle_packet env hdr pkt w =
    let w1 = if w.file.callid == hdr.callid then w else start_call env hdr w in
    let w2 = if hdr.calldir == 1 then store_up env hdr pkt w1 else store_down env hdr pkt w1 in
    if both_ended w2.file then end_call env w2 else w2

-- `file->update_time - c_time >= 18000`
unfoldable pub too_long : Env → Header → Bool
too_long env hdr = leb (hdr.callid / 2 ^ 32 % 2 ^ 32 + 18000) env.now

-- the part of `voice_parser` that runs with the slot's mutex held
unfoldable pub locked_part : Env → Header → List ℕ → World → World
locked_part env hdr pkt w =
    let w' = record w { file = record (w.file) { update_time = env.now } } in
    if too_long env hdr
    then (if w'.file.callid == 0
        then w'
        else handle_packet env hdr pkt
            (record w' { file = record (w'.file) { up_end_flag = 1; down_end_flag = 1 } }))
    else handle_packet env hdr pkt w'

-- the results of `voice_parser`: 0, -1 and -2
pub data ParseResult : Type 0 where
  parsed not_voice too_much : ParseResult

pub record Voices : Type 0 where
  pub table : Table
  pub count : Counters
  pub out : List Effect

-- `voice_parser`. `pkt` holds the bytes behind the pointer, of which `pkt_len` belong to the packet.
unfoldable pub voice_parser : Env → List ℕ → ℕ → Voices → ParseResult × Voices
voice_parser env pkt pkt_len v =
    if ltb pkt_len 36 || not (byte_at pkt 16 == 3)
    then (not_voice, v)
    else (let hdr = header_of pkt in
        if ltb 1024 hdr.data_len then (too_much, v) else elim (get_file_struct hdr.callid) [
          | none ↦ (not_voice, v)
          | some s ↦
              let w =
                locked_part env hdr pkt
                  (record { file = v.table s; count = v.count; out = v.out }) in
              (parsed, record { table = store s w.file v.table; count = w.count; out = w.out })
        ])
