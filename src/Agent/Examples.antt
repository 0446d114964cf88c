-- ===== src/Agent/Examples.antt =====
-- The theorems on src/conn_serv.c at concrete packets, and tests.
use vpu.Common.{
  none, true, byte_at, read_be16, ℕ, ◌≡◌, refl, some, List, [], ◌∷◌, ◌++◌, arith, be16, be32, suc,
  replicate,
}
use vpu.Agent.{
  PktHeader, returned0, change_fax_status, vpu_conf, overread, returned_1, ma_cmd_reload,
  reload_loop, conf_of, vpu_fill_regsguard_packet, vpu_fill_alive_packet, vpu_fill_regma_packet,
  get_status,
}
use vpu.Agent.Dispatch.{
  Sent, Formed, cmd_loop, bytes_of, received, dispatch, show_debug_mask, send_logmask, log_unknown,
  Overreads, cmd_loop-received, cmd_loop-overread,
}
use vpu.Counters.{AllCounters}
use vpu.Agent.Counter.{
  AllSmall, expected, be64, read_be64s, ma_cmd_get_counter, ma_cmd_get_counter-counters,
}
use vpu.Agent.Status.{ends, ma_cmd_software_status, status_loop, inner_loop, inner_field}
use vpu.Agent.Conns.{
  Self, Conn, Kept, sguard_round, sguard_round-Kept, quiet, ma_round, drop_old, missed,
}
use vpu.Agent.Packets.{read_fields, Carries, packets-Carries}
use vpu.Agent.Reload.{NotZero, ma_cmd_reload-NotZero}

change_fax_status_test :
    change_fax_status 2 7 (record { id = 1; flag = 0 } ∷ record { id = 2; flag = 0 } ∷ [])
    ≡ some (record { id = 1; flag = 0 } ∷ record { id = 2; flag = 7 } ∷ [])
unfolding change_fax_status
change_fax_status_test = refl

-- one file name, "vpu.yaml" with its zero
abbrev command : List ℕ
command = be16 1 ++ be16 9 ++ (118 ∷ 112 ∷ 117 ∷ 46 ∷ 121 ∷ 97 ∷ 109 ∷ 108 ∷ 0 ∷ [])

-- the configuration is loaded, and the loop goes on behind the command
ma_cmd_reload_test : ma_cmd_reload 9 command 13 ≡ some (overread, vpu_conf ∷ [])
unfolding ma_cmd_reload reload_loop conf_of
ma_cmd_reload_test = refl

-- where zeros follow, it returns -1
ma_cmd_reload_zeros_test :
    ma_cmd_reload 9 (command ++ replicate 8 0) 13 ≡ some (returned_1, vpu_conf ∷ [])
unfolding ma_cmd_reload reload_loop conf_of
ma_cmd_reload_zeros_test = refl

ma_cmd_reload-NotZero_test : NotZero (ma_cmd_reload (suc 13) command 13)
ma_cmd_reload-NotZero_test = ma_cmd_reload-NotZero command 13 (omega arith) (omega arith)

-- "10.0.0.1"
abbrev server_ip : List ℕ
server_ip = 49 ∷ 48 ∷ 46 ∷ 48 ∷ 46 ∷ 48 ∷ 46 ∷ 49 ∷ []

packets-Carries_test :
    Carries 8
      (vpu_fill_regsguard_packet 8 0 1234 5 3 server_ip)
      1
      ((2, be32 1234) ∷ (3, be32 5) ∷ (4, be32 3) ∷ (5, server_ip) ∷ [])
    × Carries 8 (vpu_fill_regma_packet 8 0 1234 5) 2 ((1, be32 1234) ∷ (2, be32 5) ∷ [])
    × Carries 8 (vpu_fill_alive_packet 8 0) 4 ((1, be16 get_status) ∷ [])
packets-Carries_test = packets-Carries 8 0 1234 5 3 server_ip (omega arith) (omega arith)

-- a header of four bytes: the length, the command and the number
abbrev header : List ℕ → PktHeader
header mem = record {
  ver = 1;
  reply = 0;
  cmd = byte_at mem 2;
  num = byte_at mem 3;
  len = read_be16 mem 0;
}

abbrev sent : Sent
sent = record { head = 0 ∷ 6 ∷ 19 ∷ 5 ∷ []; body = 8 ∷ 9 ∷ []; cmd = 19; num = 5 }

sent-Formed : Formed header 4 sent
sent-Formed = record {
  head_size = refl;
  len = λ rest. refl;
  cmd = λ rest. refl;
  num = λ rest. refl;
}

cmd_loop-received_example :
    cmd_loop 3 header 4 (bytes_of (sent ∷ sent ∷ [])) 12 []
    ≡ some (returned0, received sent ∷ received sent ∷ [])
cmd_loop-received_example =
    cmd_loop-received header 4 (sent ∷ sent ∷ []) [] (omega arith) (omega arith)
      (sent-Formed, (sent-Formed, tt))

dispatch_test : dispatch show_debug_mask (received sent) ≡ send_logmask 5 ∷ log_unknown 19 ∷ []
unfolding dispatch
dispatch_test = refl

-- a header that gives the length 0
cmd_loop-overread_test : Overreads (cmd_loop 2 header 4 (replicate 8 0) 8 [])
cmd_loop-overread_test =
    cmd_loop-overread header 0 4 (replicate 8 0) 8 [] (omega arith) (omega arith) (omega arith)
      (omega arith) (omega arith)

abbrev counts : ℕ → AllCounters
counts i = record {
  all_pkts = 9223372036854775808;
  lost_pkts = 2;
  voice_pkts = 3;
  other_pkts = 4;
  call_start = 5;
  call_end = 6;
  call_online = 7;
  call_timeout = 8;
  file_ok = 9;
  file_fail = 10;
  fax_lost = 11;
  fax_enqueue = 12;
  fax_dequeue = 13;
  fax_send = 14;
  fax_ack = 15;
  fax_yes = 16;
  fax_no = 17;
}

counts-AllSmall : AllSmall (expected counts)
counts-AllSmall = omega arith

ma_cmd_get_counter-counters_example :
    (counters : List ℕ) × (read_fields 3 (ma_cmd_get_counter 8 5 77 counts).payload
      ≡ some ((2, be16 1) ∷ (1000, be64 77) ∷ (3, counters) ∷ []))
    × (read_be64s 14 counters ≡ expected counts)
ma_cmd_get_counter-counters_example = ma_cmd_get_counter-counters 8 5 77 counts counts-AllSmall

-- the status 7 of the fax machine 2, as the agent sends it to the VPU
abbrev status_command : List ℕ
status_command =
    be16 1
    ++ be16 3
    ++ (118 ∷ 112 ∷ 117 ∷ [])
    ++ (be16 2 ++ be16 16 ++ (be16 1 ++ be16 4 ++ be32 7) ++ (be16 4 ++ be16 4 ++ be32 2))

status_test :
    ma_cmd_software_status 5 status_command 27
    ≡ some (ends overread, record { status = 7; fax_id = 2 } ∷ [])
unfolding ma_cmd_software_status status_loop inner_loop inner_field
status_test = refl

abbrev self : Self
self = record { size = 8; pid = 1; sn = 2; vpu_id = 3; server_ip = server_ip }

-- a reload, and a connection that is made again
sguard_round-Kept_test : Kept 65535 (
    sguard_round self
      (some 9)
      true
      (record { sockfd = some 4; conn_times = 0; num = 65535; reload = 1 }))
sguard_round-Kept_test =
    sguard_round-Kept self (some 9) true
      (record { sockfd = some 4; conn_times = 0; num = 65535; reload = 1 }) (omega arith)
      (omega arith)

abbrev unconnected : Conn
unconnected = record { sockfd = none; conn_times = 59; num = 0; reload = 0 }

ma_round_test :
    (ma_round 3 header self none quiet unconnected).conn ≡ record unconnected { conn_times = 0 }
unfolding ma_round drop_old missed
ma_round_test = refl
