-- ===== src/Server/Examples.antt =====
-- The theorems on src/file_server.c at small requests, and tests.
use vpu.Common.{◌||◌, ℕ, ◌≡◌, refl, true, false, Option, none, some, List, [], ◌∷◌, ◌++◌, arith}
use vpu.Voice.Parser.{read_le64}
use vpu.Server.{
  Request, Stat, Outside, Reply, cmd_parser, check_voice_file, get_fax_pic_info, play_loop, serve,
}
use vpu.Server.Accept.{Calls, Listener}
use vpu.Server.Parse.{request_of, cmd_parser_ends, cmd_parser-request_of}
use vpu.Server.Lookup.{Found, check_voice_file-Found}
use vpu.Server.Serve.{outcome_of, play_loop-sent_of}
use vpu.Server.Settled.{is_voice, is_live, is_fax, Recorded, Live, Pictures, serve-Settled}

abbrev callid : List ℕ
callid = 0 ∷ 0x80 ∷ 0x41 ∷ 0 ∷ 0 ∷ 0 ∷ 0 ∷ 0x50 ∷ []

abbrev request : Request
request = record { callid = some callid; scase = some 0; stime = some 0; stype = some 1 }

cmd_parser_ends_test : (r : Option Request) × (cmd_parser 7 (0 ∷ 1 ∷ 0 ∷ 2 ∷ 0 ∷ 9 ∷ []) 6 ≡ some r)
cmd_parser_ends_test = cmd_parser_ends (0 ∷ 1 ∷ 0 ∷ 2 ∷ 0 ∷ 9 ∷ []) 6

cmd_parser-request_of_example :
    cmd_parser 35 (request_of callid 0 0 1 ++ (7 ∷ 7 ∷ [])) 34 ≡ some (some request)
cmd_parser-request_of_example =
    cmd_parser-request_of 0 0x80 0x41 0 0 0 0 0x50 0 0 1 (7 ∷ 7 ∷ []) (omega arith) (omega arith)
      (omega arith)

-- the second directory has both files
abbrev dirs : List (Stat × Stat)
dirs = (some 9, none) ∷ (some 5, some 3) ∷ []

check_voice_file-Found_example : Found 0 [] dirs (check_voice_file 0 [] dirs)
check_voice_file-Found_example = check_voice_file-Found 0 [] dirs

get_fax_pic_info_test : get_fax_pic_info (some 10) (some 20) ≡ (10 ∷ 20 ∷ [], 38)
unfolding get_fax_pic_info
get_fax_pic_info_test = refl

-- files of two bytes and of one
play_loop-sent_of_example :
    play_loop 3 true true (1 ∷ 2 ∷ []) (3 ∷ []) ≡ outcome_of true true (1 ∷ 2 ∷ []) (3 ∷ [])
play_loop-sent_of_example = play_loop-sent_of 3 true true (1 ∷ 2 ∷ []) (3 ∷ []) (omega arith)

abbrev outside : Outside
outside = record {
  cases = [];
  normals = dirs;
  up_file = some (1 ∷ []);
  down_file = some (2 ∷ []);
  pic_up = some 4;
  pic_down = none;
  pics = some (1 ∷ 2 ∷ 3 ∷ 4 ∷ [], false) ∷ [];
  up_fails = false;
  down_fails = false;
  tx_fd = λ s. 0;
}

serve-Settled_example :
    (reply : Reply) × (serve 2 outside request ≡ some reply)
    × (is_voice request ≡ true → Recorded outside 0 reply)
    × (is_live request ≡ true → Live outside (read_le64 callid 0) reply)
    × (is_fax request ≡ true → Pictures outside 0 reply)
    × ((is_voice request || (is_live request || is_fax request)) ≡ false
        → reply ≡ record { sent = []; closed = false; player = none })
serve-Settled_example = serve-Settled 2 outside request (λ ups e. ground arith) refl (refl, tt)

-- a thread that listens, when its address has been loaded again
abbrev reloading : Listener
reloading = record {
  listenfd = some 5;
  conn_times = 3;
  svm_vpu_reload = 1;
  address = some (49 ∷ [], 8080);
  open_fds = 4 ∷ 5 ∷ [];
  lost_clients = 4 ∷ [];
  served = [];
}

abbrev calls : Calls
calls = record {
  done = false;
  listening = record { socket = some 6; bound = true; listening = true };
  select_failed = false;
  client_waits = true;
  accepted = some 7;
  thread_made = true;
}
