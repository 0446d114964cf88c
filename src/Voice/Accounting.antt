-- ===== src/Voice/Accounting.antt =====
-- The call counters against the slot in src/voice_parser.c: `call_online` counts the slots that hold a
-- call, and every call that was started has ended or is online.
mod Steps
use vpu.Common.{
  ℕ, ◌+◌, ◌-◌, ◌%◌, ◌^◌, sym, ◌≡◌, ◌≢◌, refl, ◌∙◌, ap, Bool, Bool-cases, if_keeps, inl, inr, List,
  leb, ◌==◌, if◌then◌else◌, arith,
}
use vpu.Voice.{VoiceFile, Counters, World}
use vpu.Voice.Files.{
  open_voice_file, write_voice_file, close_voice_file, send_voice_data, close_player,
  write_and_close, end_by_timeout, enqueue_node, cleanup_file_struct,
}
use vpu.Voice.Parser.{
  Env, Header, begin_call, open_call, start_call, flush, number_up, buffer_up, fax_data_up,
  store_up, number_down, buffer_down, fax_data_down, store_down, end_call, handle_packet,
  locked_part, both_ended, too_long, room_up, room_down,
}
use vpu.Voice.Accounting.Steps.{
  Kept, Kept-trans, Kept-refl, send-Kept, player-Kept, node-Kept, files-Kept, flush-Kept, open-Kept,
  number_up-Kept, buffer_up-Kept, fax_data_up-Kept, store_up-Kept, number_down-Kept,
  buffer_down-Kept, fax_data_down-Kept, store_down-Kept,
}

-- whether the slot holds a call
abbrev pub busy : VoiceFile → ℕ
busy f = if f.callid == 0 then 0 else 1

-- With `n` calls in the other slots. The counters are uint64_t.
pub record Ledger (n : ℕ) (w : World) : Type 0 where
  pub online : w.count.call_online ≡ (n + busy w.file) % 2 ^ 64
  pub balance : w.count.call_start ≡ (w.count.call_end + w.count.call_online) % 2 ^ 64

Ledger-Kept : {w w' : World} (n : ℕ) → Kept w w' → Ledger n w → Ledger n w'
Ledger-Kept n k l = ground arith

timeout-Ledger :
    (n : ℕ) (w : World)
    → Ledger n w
    → Ledger n (end_by_timeout w) × ((end_by_timeout w).file.callid ≡ 0)
unfolding end_by_timeout
timeout-Ledger n w l = ground arith

-- `cleanup_file_struct` empties the slot, and ends its call in the counters if it held one.
pub cleanup-Ledger :
    (n : ℕ) (w : World)
    → Ledger n w
    → Ledger n (cleanup_file_struct w) × ((cleanup_file_struct w).file.callid ≡ 0)
unfolding cleanup_file_struct
cleanup-Ledger n w l =
    let w1 = end_by_timeout w in
    let (l1, e1) = timeout-Ledger n w l in
    let w2 = close_player (write_and_close w1) in
    let k2 = Kept-trans (files-Kept w1) (player-Kept (write_and_close w1)) in
    let w3 : World = record w2 { file = record (w2.file) { up_no = 0; down_no = 0 } } in
    let k3 : Kept w2 w3 = record { callid = refl; started = refl; ended = refl; online = refl } in
    let k = Kept-trans k2 (Kept-trans k3 (node-Kept w3)) in (Ledger-Kept n k l1, k.callid ∙ e1)

begin-Ledger :
    (n : ℕ) (env : Env) (hdr : Header) (w : World)
    → hdr.callid ≢ 0
    → Ledger n w
    → Ledger n (begin_call env hdr w) × ((begin_call env hdr w).file.callid ≡ hdr.callid)
unfolding begin_call
begin-Ledger n env hdr w ne l = ground (arith, cleanup-Ledger n w l)

start-Ledger :
    (n : ℕ) (env : Env) (hdr : Header) (w : World)
    → hdr.callid ≢ 0
    → Ledger n w
    → Ledger n (start_call env hdr w) × ((start_call env hdr w).file.callid ≡ hdr.callid)
unfolding start_call
start-Ledger n env hdr w ne l =
    let (l1, e1) = begin-Ledger n env hdr w ne l in
    let k = open-Kept env (begin_call env hdr w) in (Ledger-Kept n k l1, k.callid ∙ e1)

write-close-Kept : (w : World) → Kept w (close_voice_file (write_voice_file w))
unfolding close_voice_file write_voice_file
write-close-Kept w = record { callid = refl; started = refl; ended = refl; online = refl }

-- the counters behind the last packet of a call
end-numbers :
    (n : ℕ) (w u : World)
    → w.file.callid ≢ 0
    → Ledger n w
    → u.file.callid ≡ 0
    → u.count.call_start ≡ w.count.call_start
    → u.count.call_end ≡ w.count.call_end
    → u.count.call_online ≡ w.count.call_online
    → Ledger n (record u {
      count = record (u.count) {
        call_end = (u.count.call_end + 1) % 2 ^ 64;
        call_online = (u.count.call_online + 2 ^ 64 - 1) % 2 ^ 64;
      };
    })
end-numbers n w u ne l e1 e2 e3 e4 = ground arith

-- a change of the slot that keeps its call, and no change of the counters
touched :
    (n : ℕ) (w w' : World)
    → Ledger n w
    → w'.file.callid ≡ w.file.callid
    → w'.count ≡ w.count
    → Ledger n w'
touched n w w' l e c =
    let started = ap (λ (c : Counters). c.call_start) c in
    let ended = ap (λ (c : Counters). c.call_end) c in
    let online = ap (λ (c : Counters). c.call_online) c in ground arith

at-start :
    (n : ℕ) (env : Env) (hdr : Header) (w : World)
    → hdr.callid ≢ 0
    → Ledger n w
    → (let w1 : World = if w.file.callid == hdr.callid then w else start_call env hdr w in
        Ledger n w1 × (w1.file.callid ≡ hdr.callid))
at-start n env hdr w ne l = elim (Bool-cases (w.file.callid == hdr.callid)) [
  | inl known ↦ rw known (l, ground arith)
  | inr new ↦ rw new (start-Ledger n env hdr w ne l)
]

-- What `end_call` does to the counters, for a slot that holds a call.
end-Ledger :
    (n : ℕ) (env : Env) (w : World) → w.file.callid ≢ 0 → Ledger n w → Ledger n (end_call env w)
unfolding end_call
end-Ledger n env w ne l =
    let w1 : World = record w {
      file = record (w.file) {
        update_time = 0;
        callid = 0;
        up_end_flag = 0;
        down_end_flag = 0;
        up_no = 0;
        down_no = 0;
      };
    } in
    let sent = send_voice_data env.player_end w1 in
    let w2 = close_voice_file (write_voice_file sent) in
    let k = Kept-trans (send-Kept env.player_end w1) (write-close-Kept sent) in
    let w3 : World = record w2 {
      count = record (w2.count) {
        call_end = (w2.count.call_end + 1) % 2 ^ 64;
        call_online = (w2.count.call_online + 2 ^ 64 - 1) % 2 ^ 64;
      };
    } in
    let l3 : Ledger n w3 = end-numbers n w w2 ne l k.callid k.started k.ended k.online in
    Ledger-Kept n (Kept-trans (player-Kept w3) (node-Kept (close_player w3))) l3

handle_packet-Ledger :
    (n : ℕ) (env : Env) (hdr : Header) (pkt : List ℕ) (w : World)
    → hdr.callid ≢ 0
    → Ledger n w
    → Ledger n (handle_packet env hdr pkt w)
unfolding handle_packet
handle_packet-Ledger n env hdr pkt w ne l =
    let known = w.file.callid == hdr.callid in
    let w1 : World = if known then w else start_call env hdr w in
    let (l1, e1) = at-start n env hdr w ne l in
    let up = hdr.calldir == 1 in
    let w2 : World = if up then store_up env hdr pkt w1 else store_down env hdr pkt w1 in
    let k =
      if_keeps (λ (x : World). Kept w1 x) up (store_up-Kept env hdr pkt w1)
        (store_down-Kept env hdr pkt w1) in
    let l2 = Ledger-Kept n k l1 in
    let e2 = k.callid ∙ e1 in
    if_keeps (λ (x : World). Ledger n x) (both_ended w2.file)
      (end-Ledger n env w2 (λ z. ne (sym e2 ∙ z)) l2) l2

-- Every packet of a call keeps the counters true to the slots: with `n` calls in the other slots,
-- `call_online` stays `n` and one more if this slot holds a call, and `call_start` stays the calls ended
-- and the calls online. The call id of the packet must not be 0.
pub locked_part-Ledger :
    (n : ℕ) (env : Env) (hdr : Header) (pkt : List ℕ) (w : World)
    → hdr.callid ≢ 0
    → Ledger n w
    → Ledger n (locked_part env hdr pkt w)
unfolding locked_part
locked_part-Ledger n env hdr pkt w ne l =
    let P = λ (x : World). Ledger n x in
    if_keeps P (too_long env hdr)
      (if_keeps P (w.file.callid == 0) (touched n w _ l refl refl)
        (handle_packet-Ledger n env hdr pkt _ ne (touched n w _ l refl refl)))
      (handle_packet-Ledger n env hdr pkt _ ne (touched n w _ l refl refl))
