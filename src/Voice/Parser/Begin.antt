-- ===== src/Voice/Parser/Begin.antt =====
-- `voice_parser` of src/voice_parser.c at the first packet of a call.
use vpu.Common.{none, some, [], ◌∷◌, if◌then◌else◌}
use vpu.Voice.{clear_node, insert_cdr, World, add1, zero_file}
use vpu.Voice.Files.{emit, open_voice_file, cleanup_file_struct}
use vpu.Voice.Parser.Packet.{Header, Env}

-- A packet of another call: the slot is cleaned up and cleared, and the new call's fields are set.
unfoldable pub begin_call : Env → Header → World → World
begin_call env hdr w =
    let w' = cleanup_file_struct w in
    record w' {
      file = record zero_file {
        callid = hdr.callid;
        case_mark = hdr.ccase;
        data_mark = hdr.data_mark;
        up_no = 1;
        down_no = 1;
        cdr = record {
          callid = hdr.callid;
          time = env.start_time;
          path = 0;
          callflag = 0;
          ruleflag = hdr.ccase;
          recv3 = 0;
        };
      };
      count = record (w'.count) {
        call_start = add1 w'.count.call_start;
        call_online = add1 w'.count.call_online;
      };
    }

-- The files of the new call are opened; if that succeeds, it gets a fax node, if there is one.
unfoldable pub open_call : Env → World → World
open_call env w =
    let (opened, file) = open_voice_file env.files w.file in
    if opened
    then elim (env.free_node) [
      | some node ↦ emit (clear_node node ∷ []) (record w {
        file = record file { cdr_node = some node; fax_data_len_up = 0; fax_data_len_down = 0 };
        count = record (w.count) { file_ok = add1 w.count.file_ok };
      })
      | none ↦ emit (insert_cdr file.cdr ∷ []) (record w {
        file = record file { cdr_node = none; fax_data_len_up = 0; fax_data_len_down = 0 };
        count = record (w.count) {
          file_ok = add1 w.count.file_ok;
          fax_lost = add1 w.count.fax_lost;
        };
      })
    ]
    else record w { file = file; count = record (w.count) { file_fail = add1 w.count.file_fail } }

unfoldable pub start_call : Env → Header → World → World
start_call env hdr w = open_call env (begin_call env hdr w)
