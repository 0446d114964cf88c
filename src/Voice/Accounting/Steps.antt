-- ===== src/Voice/Accounting/Steps.antt =====
-- The steps of src/voice_parser.c that leave the call of a slot and the call counters as they are.
use vpu.Common.{ℕ, ◌≡◌, refl, ◌∙◌, Bool, if_keeps, List, leb, if◌then◌else◌, arith}
use vpu.Voice.{World}
use vpu.Voice.Files.{
  open_voice_file, write_voice_file, close_voice_file, send_voice_data, close_player,
  write_and_close, enqueue_node,
}
use vpu.Voice.Parser.{
  Env, Header, open_call, flush, number_up, buffer_up, fax_data_up, store_up, number_down,
  buffer_down, fax_data_down, store_down, room_up, room_down,
}

-- the call and the call counters are as before
pub record Kept (w w' : World) : Type 0 where
  pub callid : w'.file.callid ≡ w.file.callid
  pub started : w'.count.call_start ≡ w.count.call_start
  pub ended : w'.count.call_end ≡ w.count.call_end
  pub online : w'.count.call_online ≡ w.count.call_online

pub Kept-trans : {a b c : World} → Kept a b → Kept b c → Kept a c
Kept-trans p q = record {
  callid = q.callid ∙ p.callid;
  started = q.started ∙ p.started;
  ended = q.ended ∙ p.ended;
  online = q.online ∙ p.online;
}

pub Kept-refl : (w : World) → Kept w w
Kept-refl w = record { callid = refl; started = refl; ended = refl; online = refl }

pub send-Kept : (b : Bool) (w : World) → Kept w (send_voice_data b w)
unfolding send_voice_data
send-Kept b w = ground arith

pub player-Kept : (w : World) → Kept w (close_player w)
unfolding close_player
player-Kept w = ground arith

pub node-Kept : (w : World) → Kept w (enqueue_node w)
unfolding enqueue_node
node-Kept w = ground arith

pub files-Kept : (w : World) → Kept w (write_and_close w)
unfolding write_and_close close_voice_file write_voice_file
files-Kept w = ground arith

pub flush-Kept : (env : Env) (w : World) → Kept w (flush env w)
unfolding flush write_voice_file
flush-Kept env w = ground (arith, send-Kept env.player_full w)

pub open-Kept : (env : Env) (w : World) → Kept w (open_call env w)
unfolding open_call open_voice_file
open-Kept env w = ground arith

pub number_up-Kept : (hdr : Header) (w : World) → Kept w (number_up hdr w)
unfolding number_up
number_up-Kept hdr w = record { callid = refl; started = refl; ended = refl; online = refl }

pub buffer_up-Kept : (hdr : Header) (pkt : List ℕ) (w : World) → Kept w (buffer_up hdr pkt w)
unfolding buffer_up
buffer_up-Kept hdr pkt w = record { callid = refl; started = refl; ended = refl; online = refl }

pub fax_data_up-Kept : (n : ℕ) (pkt : List ℕ) (w : World) → Kept w (fax_data_up n pkt w)
unfolding fax_data_up
fax_data_up-Kept n pkt w = ground arith

pub store_up-Kept :
    (env : Env) (hdr : Header) (pkt : List ℕ) (w : World) → Kept w (store_up env hdr pkt w)
unfolding store_up
store_up-Kept env hdr pkt w =
    let w1 = number_up hdr w in
    let full = leb 8192 w1.file.data_count_up in
    let w2 : World = if full then flush env w1 else w1 in
    let flushed = if_keeps (λ (x : World). Kept w1 x) full (flush-Kept env w1) (Kept-refl w1) in
    Kept-trans (Kept-trans (number_up-Kept hdr w) flushed) (
      Kept-trans (buffer_up-Kept hdr pkt w2)
        (fax_data_up-Kept (room_up hdr w2.file) pkt (buffer_up hdr pkt w2)))

pub number_down-Kept : (hdr : Header) (w : World) → Kept w (number_down hdr w)
unfolding number_down
number_down-Kept hdr w = record { callid = refl; started = refl; ended = refl; online = refl }

pub buffer_down-Kept : (hdr : Header) (pkt : List ℕ) (w : World) → Kept w (buffer_down hdr pkt w)
unfolding buffer_down
buffer_down-Kept hdr pkt w = record { callid = refl; started = refl; ended = refl; online = refl }

pub fax_data_down-Kept : (n : ℕ) (pkt : List ℕ) (w : World) → Kept w (fax_data_down n pkt w)
unfolding fax_data_down
fax_data_down-Kept n pkt w = ground arith

pub store_down-Kept :
    (env : Env) (hdr : Header) (pkt : List ℕ) (w : World) → Kept w (store_down env hdr pkt w)
unfolding store_down
store_down-Kept env hdr pkt w =
    let w1 = number_down hdr w in
    let full = leb 8192 w1.file.data_count_down in
    let w2 : World = if full then flush env w1 else w1 in
    let flushed = if_keeps (λ (x : World). Kept w1 x) full (flush-Kept env w1) (Kept-refl w1) in
    Kept-trans (Kept-trans (number_down-Kept hdr w) flushed) (
      Kept-trans (buffer_down-Kept hdr pkt w2)
        (fax_data_down-Kept (room_down hdr w2.file) pkt (buffer_down hdr pkt w2)))
