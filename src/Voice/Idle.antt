-- ===== src/Voice/Idle.antt =====
-- `memset` in src/voice_parser.c clears the time of a slot along with the rest, behind the line that sets
-- it: the first packet of a call leaves no time for the timeout to count from.
use vpu.Common.{ℕ, ◌≡◌, ◌≢◌, refl, Bool, false, if_keeps, List, leb, ◌==◌, if◌then◌else◌, arith}
use vpu.Voice.{World}
use vpu.Voice.Files.{
  open_voice_file, write_voice_file, close_voice_file, send_voice_data, close_player, enqueue_node,
}
use vpu.Voice.Parser.{
  Env, Header, begin_call, open_call, start_call, flush, number_up, buffer_up, fax_data_up,
  store_up, number_down, buffer_down, fax_data_down, store_down, end_call, handle_packet,
  locked_part, both_ended, too_long,
}

abbrev NoTime : World → Type 0
NoTime w = w.file.update_time ≡ 0

start-NoTime : (env : Env) (hdr : Header) (w : World) → NoTime (start_call env hdr w)
unfolding start_call open_call begin_call open_voice_file
start-NoTime env hdr w = ground arith

send-NoTime : (b : Bool) (w : World) → NoTime w → NoTime (send_voice_data b w)
unfolding send_voice_data
send-NoTime b w h = ground arith

flush-NoTime : (env : Env) (w : World) → NoTime w → NoTime (flush env w)
unfolding flush write_voice_file
flush-NoTime env w h = send-NoTime env.player_full w h

fax_up-NoTime : (n : ℕ) (pkt : List ℕ) (w : World) → NoTime w → NoTime (fax_data_up n pkt w)
unfolding fax_data_up
fax_up-NoTime n pkt w h = ground arith

fax_down-NoTime : (n : ℕ) (pkt : List ℕ) (w : World) → NoTime w → NoTime (fax_data_down n pkt w)
unfolding fax_data_down
fax_down-NoTime n pkt w h = ground arith

store_up-NoTime :
    (env : Env) (hdr : Header) (pkt : List ℕ) (w : World)
    → NoTime w
    → NoTime (store_up env hdr pkt w)
unfolding store_up number_up buffer_up
store_up-NoTime env hdr pkt w h =
    let w1 = number_up hdr w in
    fax_up-NoTime _ pkt _
      (if_keeps NoTime (leb 8192 w1.file.data_count_up) (flush-NoTime env w1 h) h)

store_down-NoTime :
    (env : Env) (hdr : Header) (pkt : List ℕ) (w : World)
    → NoTime w
    → NoTime (store_down env hdr pkt w)
unfolding store_down number_down buffer_down
store_down-NoTime env hdr pkt w h =
    let w1 = number_down hdr w in
    fax_down-NoTime _ pkt _
      (if_keeps NoTime (leb 8192 w1.file.data_count_down) (flush-NoTime env w1 h) h)

player-NoTime : (w : World) → NoTime w → NoTime (close_player w)
unfolding close_player
player-NoTime w h = ground arith

node-NoTime : (w : World) → NoTime w → NoTime (enqueue_node w)
unfolding enqueue_node
node-NoTime w h = ground arith

end-NoTime : (env : Env) (w : World) → NoTime (end_call env w)
unfolding end_call close_voice_file write_voice_file
end-NoTime env w = node-NoTime _ (player-NoTime _ (send-NoTime env.player_end _ refl))

handle_packet-NoTime :
    (env : Env) (hdr : Header) (pkt : List ℕ) (w : World)
    → (w.file.callid == hdr.callid) ≡ false
    → NoTime (handle_packet env hdr pkt w)
unfolding handle_packet
handle_packet-NoTime env hdr pkt w new =
    let w1 = start_call env hdr w in
    let h1 = start-NoTime env hdr w in
    let up = hdr.calldir == 1 in
    let w2 : World = if up then store_up env hdr pkt w1 else store_down env hdr pkt w1 in
    rw new (
      if_keeps NoTime (both_ended w2.file) (end-NoTime env w2) (
        if_keeps NoTime up (store_up-NoTime env hdr pkt w1 h1)
          (store_down-NoTime env hdr pkt w1 h1)))

-- The first packet of a call, unless it comes more than five hours late to an empty slot and is dropped,
-- leaves the time of the slot at 0, whatever time it is.
pub first_packet-NoTime :
    (env : Env) (hdr : Header) (pkt : List ℕ) (w : World)
    → w.file.callid ≢ hdr.callid
    → too_long env hdr ≡ false
    → (locked_part env hdr pkt w).file.update_time ≡ 0
unfolding locked_part
first_packet-NoTime env hdr pkt w new fresh =
    let e : (w.file.callid == hdr.callid) ≡ false = ground arith in
    rw fresh (handle_packet-NoTime env hdr pkt _ e)
