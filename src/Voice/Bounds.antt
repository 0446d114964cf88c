-- ===== src/Voice/Bounds.antt =====
-- No packet makes `voice_parser` of src/voice_parser.c leave the buffers of a slot or of a fax node.
use vpu.Common.{
  ℕ, ◌≤◌, ◌≡◌, Bool, if_keeps, List, leb, ◌==◌, if◌then◌else◌, length, length-blit, arith,
}
use vpu.Voice.{VoiceFile, World, length-zero_data, bytes_from, encrypt_voice}
use vpu.Voice.Files.{
  open_voice_file, write_voice_file, close_voice_file, send_voice_data, close_player, enqueue_node,
}
use vpu.Voice.Parser.{
  Env, Header, begin_call, open_call, start_call, flush, number_up, buffer_up, fax_data_up,
  store_up, number_down, buffer_down, fax_data_down, store_down, end_call, handle_packet,
  locked_part, both_ended, too_long, room_up, room_down,
}

pub record InBounds (f : VoiceFile) : Type 0 where
  pub size_up : length f.data_up ≡ 8192
  pub size_down : length f.data_down ≡ 8192
  pub up : f.data_count_up ≤ 8192
  pub down : f.data_count_down ≤ 8192
  pub fax_up : f.fax_data_len_up ≤ 524288
  pub fax_down : f.fax_data_len_down ≤ 524288

send-InBounds : (b : Bool) (w : World) → InBounds w.file → InBounds (send_voice_data b w).file
unfolding send_voice_data
send-InBounds b w v = ground arith

player-InBounds : (w : World) → InBounds w.file → InBounds (close_player w).file
unfolding close_player
player-InBounds w v = ground arith

node-InBounds : (w : World) → InBounds w.file → InBounds (enqueue_node w).file
unfolding enqueue_node
node-InBounds w v = ground arith

start-InBounds : (env : Env) (hdr : Header) (w : World) → InBounds (start_call env hdr w).file
unfolding start_call open_call begin_call open_voice_file
start-InBounds env hdr w = ground (arith, length-zero_data)

pub flush-InBounds : (env : Env) (w : World) → InBounds w.file → InBounds (flush env w).file
unfolding flush write_voice_file
flush-InBounds env w v = ground (arith, send-InBounds env.player_full w v)

pub number_up-InBounds :
    (hdr : Header) (w : World) → InBounds w.file → InBounds (number_up hdr w).file
unfolding number_up
number_up-InBounds hdr w v = ground arith

buffer_up-InBounds :
    (hdr : Header) (pkt : List ℕ) (w : World)
    → InBounds w.file
    → InBounds (buffer_up hdr pkt w).file
unfolding buffer_up
buffer_up-InBounds hdr pkt w v = ground (
  arith,
  length-blit w.file.data_up w.file.data_count_up
      (encrypt_voice (bytes_from pkt 37 (room_up hdr w.file))),
)

fax_data_up-InBounds :
    (n : ℕ) (pkt : List ℕ) (w : World) → InBounds w.file → InBounds (fax_data_up n pkt w).file
unfolding fax_data_up
fax_data_up-InBounds n pkt w v = ground arith

store_up-InBounds :
    (env : Env) (hdr : Header) (pkt : List ℕ) (w : World)
    → InBounds w.file
    → InBounds (store_up env hdr pkt w).file
unfolding store_up
store_up-InBounds env hdr pkt w v =
    let w1 = number_up hdr w in
    let v1 = number_up-InBounds hdr w v in
    let full = leb 8192 w1.file.data_count_up in
    let w2 : World = if full then flush env w1 else w1 in
    let v2 = if_keeps (λ (w : World). InBounds w.file) full (flush-InBounds env w1 v1) v1 in
    fax_data_up-InBounds (room_up hdr w2.file) pkt (buffer_up hdr pkt w2)
      (buffer_up-InBounds hdr pkt w2 v2)

pub number_down-InBounds :
    (hdr : Header) (w : World) → InBounds w.file → InBounds (number_down hdr w).file
unfolding number_down
number_down-InBounds hdr w v = ground arith

buffer_down-InBounds :
    (hdr : Header) (pkt : List ℕ) (w : World)
    → InBounds w.file
    → InBounds (buffer_down hdr pkt w).file
unfolding buffer_down
buffer_down-InBounds hdr pkt w v =
    let bytes = encrypt_voice (bytes_from pkt 37 (room_down hdr w.file)) in
    ground (arith, length-blit w.file.data_down w.file.data_count_down bytes)

fax_data_down-InBounds :
    (n : ℕ) (pkt : List ℕ) (w : World) → InBounds w.file → InBounds (fax_data_down n pkt w).file
unfolding fax_data_down
fax_data_down-InBounds n pkt w v = ground arith

store_down-InBounds :
    (env : Env) (hdr : Header) (pkt : List ℕ) (w : World)
    → InBounds w.file
    → InBounds (store_down env hdr pkt w).file
unfolding store_down
store_down-InBounds env hdr pkt w v =
    let w1 = number_down hdr w in
    let v1 = number_down-InBounds hdr w v in
    let full = leb 8192 w1.file.data_count_down in
    let w2 : World = if full then flush env w1 else w1 in
    let v2 = if_keeps (λ (w : World). InBounds w.file) full (flush-InBounds env w1 v1) v1 in
    fax_data_down-InBounds (room_down hdr w2.file) pkt (buffer_down hdr pkt w2)
      (buffer_down-InBounds hdr pkt w2 v2)

-- `end_call` is `send_voice_data`, then steps that leave the buffers alone.
end_call-InBounds : (env : Env) (w : World) → InBounds w.file → InBounds (end_call env w).file
unfolding end_call close_voice_file write_voice_file
end_call-InBounds env w v =
    let w1 : World = record w {
      file = record (w.file) {
        update_time = 0;
        callid = 0;
        up_end_flag = 0;
        down_end_flag = 0;
        up_no = 0;
        down_no = 0;
      };
    } in
    let v2 = send-InBounds env.player_end w1 (ground arith) in
    node-InBounds _ (player-InBounds _ (ground arith))

handle_packet-InBounds :
    (env : Env) (hdr : Header) (pkt : List ℕ) (w : World)
    → InBounds w.file
    → InBounds (handle_packet env hdr pkt w).file
unfolding handle_packet
handle_packet-InBounds env hdr pkt w v =
    let P = λ (w : World). InBounds w.file in
    let known = w.file.callid == hdr.callid in
    let w1 : World = if known then w else start_call env hdr w in
    let v1 = if_keeps P known v (start-InBounds env hdr w) in
    let up = hdr.calldir == 1 in
    let w2 : World = if up then store_up env hdr pkt w1 else store_down env hdr pkt w1 in
    let v2 =
      if_keeps P up (store_up-InBounds env hdr pkt w1 v1) (store_down-InBounds env hdr pkt w1 v1) in
    if_keeps P (both_ended w2.file) (end_call-InBounds env w2 v2) v2

-- Whatever packet arrives, and whatever the system answers, a slot whose counts lie within its buffers
-- is left so: every copy into a voice buffer, and every copy into a fax node at its offset, ends inside.
pub locked_part-InBounds :
    (env : Env) (hdr : Header) (pkt : List ℕ) (w : World)
    → InBounds w.file
    → InBounds (locked_part env hdr pkt w).file
unfolding locked_part
locked_part-InBounds env hdr pkt w v =
    let P = λ (w : World). InBounds w.file in
    if_keeps P (too_long env hdr)
      (if_keeps P (w.file.callid == 0) (ground arith)
        (handle_packet-InBounds env hdr pkt _ (ground arith)))
      (handle_packet-InBounds env hdr pkt _ (ground arith))
