-- ===== src/Voice/Release.antt =====
-- When a call ends in src/voice_parser.c, by its packets or by cleanup, the slot gives everything back.
use vpu.Common.{
  ◌+◌, ◌-◌, ◌%◌, ◌^◌, ◌≡◌, refl, ◌∙◌, ap, Bool, none, some, List, [], ◌∷◌, ◌++◌, arith, append-nil,
}
use vpu.Voice.{VoiceFile, Effect, World, enqueue}
use vpu.Voice.Files.{
  write_voice_file, close_voice_file, send_voice_data, close_player, write_and_close,
  end_by_timeout, enqueue_node, cleanup_file_struct,
}
use vpu.Voice.Parser.{Env, end_call}

-- nothing is held
pub record Released (f : VoiceFile) : Type 0 where
  pub no_call : f.callid ≡ 0
  pub no_up : f.fp_up ≡ none
  pub no_down : f.fp_down ≡ none
  pub no_player : f.tx_fd ≡ 0
  pub no_node : f.cdr_node ≡ none

-- the node of a slot, if it has one, with the record that goes with it
abbrev pub handed_over : VoiceFile → List Effect
handed_over f = elim (f.cdr_node) [ none ↦ [] | some node ↦ enqueue node f.cdr ∷ [] ]

player-closed : (w : World) → (close_player w).file.tx_fd ≡ 0
unfolding close_player
player-closed w = ground arith

player-rest :
    (w : World)
    → ((close_player w).file.callid ≡ w.file.callid)
      × ((close_player w).file.fp_up ≡ w.file.fp_up)
      × ((close_player w).file.fp_down ≡ w.file.fp_down)
      × ((close_player w).file.cdr_node ≡ w.file.cdr_node)
      × ((close_player w).file.cdr ≡ w.file.cdr)
unfolding close_player
player-rest w = ground arith

-- Handing the node over is the last thing that both ends of a call do.
node-Released :
    (w : World)
    → w.file.callid ≡ 0
    → w.file.fp_up ≡ none
    → w.file.fp_down ≡ none
    → w.file.tx_fd ≡ 0
    → Released (enqueue_node w).file × ((enqueue_node w).out ≡ w.out ++ handed_over w.file)
unfolding enqueue_node
node-Released w a b c d = ground (arith, append-nil w.out)

-- the node and its record are not touched before they are handed over
record SameNode (f g : VoiceFile) : Type 0 where
  node : g.cdr_node ≡ f.cdr_node
  record_of : g.cdr ≡ f.cdr

handed_over-SameNode : {f g : VoiceFile} → SameNode f g → handed_over g ≡ handed_over f
handed_over-SameNode {f} {g} s = ground (arith, s.node, s.record_of)

send-SameNode : (b : Bool) (w : World) → SameNode w.file (send_voice_data b w).file
unfolding send_voice_data
send-SameNode b w = ground arith

closed_lem :
    (w : World)
    → ((close_voice_file (write_voice_file w)).file.callid ≡ w.file.callid)
      × ((close_voice_file (write_voice_file w)).file.fp_up ≡ none)
      × ((close_voice_file (write_voice_file w)).file.fp_down ≡ none)
      × SameNode w.file (close_voice_file (write_voice_file w)).file
unfolding close_voice_file write_voice_file
closed_lem w = (refl, refl, refl, record { node = refl; record_of = refl })

send-callid : (b : Bool) (w : World) → (send_voice_data b w).file.callid ≡ w.file.callid
unfolding send_voice_data
send-callid b w = ground arith

-- Behind the last packet of a call the slot holds no call, no FILE, no player and no fax node; the fax
-- node, if it had one, has gone into the fax queue with the call's record, as the last effect.
pub end_call-Released :
    (env : Env) (w : World)
    → Released (end_call env w).file
      × ((front : List Effect) × ((end_call env w).out ≡ front ++ handed_over w.file))
unfolding end_call
end_call-Released env w =
    let w1 : World = record w {
      file = record (w.file) {
        update_time = 0;
        callid = 0;
        up_end_flag = 0;
        down_end_flag = 0;
        up_no = 0;
        down_no = 0;
      };
    } in
    let sent = send_voice_data env.player_end w1 in
    let (callid, up, down, same) = closed_lem sent in
    let w2 = close_voice_file (write_voice_file sent) in
    let w3 : World = record w2 {
      count = record (w2.count) {
        call_end = (w2.count.call_end + 1) % 2 ^ 64;
        call_online = (w2.count.call_online + 2 ^ 64 - 1) % 2 ^ 64;
      };
    } in
    let (c3, u3, d3, n3, r3) = player-rest w3 in
    let (released, out) =
      node-Released (close_player w3) (c3 ∙ callid ∙ send-callid env.player_end w1) (u3 ∙ up)
        (d3 ∙ down) (player-closed w3) in
    let kept = send-SameNode env.player_end w1 in
    (
      released,
      (
        (close_player w3).out,
        out
            ∙ ap (λ l. (close_player w3).out ++ l)
                (handed_over-SameNode {f = w.file} {g = (close_player w3).file} (record {
                  node = n3 ∙ same.node ∙ kept.node;
                  record_of = r3 ∙ same.record_of ∙ kept.record_of;
                })),
      ),
    )

timeout-callid :
    (w : World) → ((end_by_timeout w).file.callid ≡ 0) × SameNode w.file (end_by_timeout w).file
unfolding end_by_timeout
timeout-callid w = ground arith

closed-files :
    (w : World)
    → ((write_and_close w).file.callid ≡ w.file.callid)
      × ((write_and_close w).file.fp_up ≡ none)
      × ((write_and_close w).file.fp_down ≡ none)
      × SameNode w.file (write_and_close w).file
unfolding write_and_close close_voice_file write_voice_file
closed-files w = ground arith

-- After `cleanup_file_struct` the slot holds no call, no FILE, no player and no fax node; the fax node, if
-- it had one, has gone into the fax queue with the call's record, as the last effect.
pub cleanup-Released :
    (w : World)
    → Released (cleanup_file_struct w).file
      × ((front : List Effect) × ((cleanup_file_struct w).out ≡ front ++ handed_over w.file))
unfolding cleanup_file_struct
cleanup-Released w =
    let w1 = end_by_timeout w in
    let (c1, s1) = timeout-callid w in
    let w2 = write_and_close w1 in
    let (c2, up, down, s2) = closed-files w1 in
    let (c3, u3, d3, n3, r3) = player-rest w2 in
    let w3 = close_player w2 in
    let w4 : World = record w3 { file = record (w3.file) { up_no = 0; down_no = 0 } } in
    let (released, out) =
      node-Released w4 (c3 ∙ c2 ∙ c1) (u3 ∙ up) (d3 ∙ down) (player-closed w2) in
    (
      released,
      (
        w4.out,
        out
            ∙ ap (λ l. w4.out ++ l)
                (handed_over-SameNode {f = w.file} {g = w4.file} (record {
                  node = n3 ∙ s2.node ∙ s1.node;
                  record_of = r3 ∙ s2.record_of ∙ s1.record_of;
                })),
      ),
    )
