-- ===== src/Voice/Examples.antt =====
-- The theorems on src/voice_parser.c at a slot in a call, and tests.
use vpu.Common.{
  Option, ◌%◌, ◌+◌, ℕ, ◌-◌, ◌%◌, ◌<◌, ◌≡◌, ◌≢◌, refl, ◌⊎◌, true, false, some, List, [], ◌∷◌, ◌++◌,
  take, replicate, arith, byte_at,
}
use vpu.Voice.{VoiceFile, Counters, World, Effect, zero_file, length-zero_data, encrypt_voice}
use vpu.Voice.Slots.{
  Slot, pos, get_file_struct, get_file_struct_injective, worker_of, same_slot-worker_of,
}
use vpu.Voice.Files.{mix, cleanup_file_struct}
use vpu.Voice.Parser.{
  Env, Header, header_of, locked_part, store_up, store_down, end_call, parsed, not_voice, too_much,
  Voices, voice_parser, too_long,
}
use vpu.Voice.Bounds.{InBounds}
use vpu.Voice.Tables.{accepted, voice_parser_cases, voice_parser-isolated}
use vpu.Voice.Accounting.{Ledger, locked_part-Ledger}
use vpu.Voice.Stream.{
  held_up, held_down, kept_up, kept_down, payload, store_up-stream, store_down-stream,
}
use vpu.Dirs.{FileDirs, get_root_dir, search_dir, first_dir}
use vpu.Conf.DayDirs.{Date}
use vpu.Voice.Naming.{
  named, name_in, find_existing, from_root, get_filename, began, choose_dir, Placed,
  get_filename-Placed,
}
use vpu.Voice.Release.{Released, handed_over, end_call-Released, cleanup-Released}

abbrev zero_counters : Counters
zero_counters = record {
  call_start = 0;
  call_end = 0;
  call_online = 0;
  call_timeout = 0;
  file_ok = 0;
  file_fail = 0;
  fax_lost = 0;
  fax_enqueue = 0;
}

-- the call id that `packet` carries
abbrev call : ℕ
call = 0x5000_0000_0041_8000

abbrev other_call : ℕ
other_call = 0x5000_0000_0041_8001

-- an up packet of two voice bytes
abbrev packet : List ℕ
packet =
    replicate 16 0
    ++ (3 ∷ 0 ∷ 0 ∷ 0 ∷ 0 ∷ 0x80 ∷ 0x41 ∷ 0 ∷ 0 ∷ 0 ∷ 0 ∷ 0x50 ∷ 1 ∷ 0 ∷ 0 ∷ 0 ∷ 0 ∷ 1 ∷ 1 ∷ 0 ∷ 2
        ∷ 9 ∷ 7 ∷ [])

abbrev hdr : Header
hdr = record { callid = call; calldir = 1; ccase = 0; data_mark = 1; data_no = 1; data_len = 2 }

header_test : header_of packet ≡ hdr
header_test = refl

abbrev env : Env
env = record {
  now = 0x5000_0010;
  start_time = 0x5000_0010;
  files = record { filename = some 1; fopen_up = some 11; fopen_down = some 12 };
  free_node = some 40;
  player_full = true;
  player_end = true;
}

-- a slot in the middle of the call, and one of another call
abbrev talking : VoiceFile
talking = record zero_file {
  callid = call;
  fp_up = some 11;
  fp_down = some 12;
  tx_fd = 9;
  cdr_node = some 40;
  data_count_up = 8191;
}

abbrev world : World
world = record {
  file = talking;
  count = record zero_counters { call_start = 1; call_online = 1 };
  out = [];
}

abbrev world_other : World
world_other = record world { file = record talking { callid = other_call } }

mix_test : mix (1 ∷ 2 ∷ []) (3 ∷ 4 ∷ []) ≡ 1 ∷ 3 ∷ 2 ∷ 4 ∷ []
unfolding mix
mix_test = refl

zero_file-InBounds : InBounds zero_file
zero_file-InBounds = record {
  size_up = length-zero_data;
  size_down = length-zero_data;
  up = omega arith;
  down = omega arith;
  fax_up = omega arith;
  fax_down = omega arith;
}

talking-InBounds : InBounds talking
talking-InBounds = record {
  size_up = length-zero_data;
  size_down = length-zero_data;
  up = omega arith;
  down = omega arith;
  fax_up = omega arith;
  fax_down = omega arith;
}

same_place : get_file_struct call ≡ get_file_struct other_call
unfolding get_file_struct
same_place = refl

get_file_struct_injective_test : pos call ≡ pos other_call
get_file_struct_injective_test = get_file_struct_injective call other_call same_place

same_slot-worker_of_test : worker_of call ≡ worker_of other_call
same_slot-worker_of_test = same_slot-worker_of call other_call same_place

abbrev voices : Voices
voices = record { table = λ s. talking; count = world.count; out = [] }

voice_parser_cases_test :
    (((39 < 36) ⊎ (byte_at packet 16 ≢ 3))
      × (voice_parser env packet 39 voices ≡ (not_voice, voices)))
    ⊎ ((1024 < (header_of packet).data_len)
        × (voice_parser env packet 39 voices ≡ (too_much, voices)))
    ⊎ (voice_parser env packet 39 voices ≡ (parsed, accepted env packet voices))
voice_parser_cases_test = voice_parser_cases env packet 39 voices

abbrev elsewhere : Slot
elsewhere = record { sr155_no = 1; e1_no = 1; ts_no = 1 }

voice_parser-isolated_test : (voice_parser env packet 39 voices).1.table elsewhere ≡ talking
voice_parser-isolated_test = voice_parser-isolated env packet 39 voices elsewhere refl

world-Ledger : Ledger 0 world
world-Ledger = record { online = refl; balance = refl }

locked_part-Ledger_example : Ledger 0 (locked_part env hdr packet world)
locked_part-Ledger_example = locked_part-Ledger 0 env hdr packet world (omega arith) world-Ledger

-- one byte of room for a packet of two
store_up-stream_example :
    held_up (store_up env hdr packet world).file
    ≡ kept_up talking ++ encrypt_voice (take (8192 - 8191 % 8192) (payload hdr packet))
store_up-stream_example = store_up-stream env hdr packet world talking-InBounds

store_down-stream_test :
    held_down (store_down env hdr packet world).file
    ≡ kept_down talking ++ encrypt_voice (take (8192 - 0 % 8192) (payload hdr packet))
store_down-stream_test = store_down-stream env hdr packet world talking-InBounds

end_call-Released_example :
    Released (end_call env world).file
    × ((front : List Effect) × ((end_call env world).out ≡ front ++ handed_over talking))
end_call-Released_example = end_call-Released env world

cleanup-Released_test :
    Released (cleanup_file_struct world).file
    × ((front : List Effect) × ((cleanup_file_struct world).out ≡ front ++ handed_over talking))
cleanup-Released_test = cleanup-Released world

in_time : too_long env hdr ≡ false
unfolding too_long
in_time = refl

-- two roots, of which the second is writable
abbrev two_roots : FileDirs
two_roots = record {
  dirs =
      record { dir_name = 47 ∷ 97 ∷ []; disk_num = 1; write_flag = 0 }
      ∷ record { dir_name = 47 ∷ 98 ∷ []; disk_num = 2; write_flag = 1 }
      ∷ [];
  num = 2;
}

abbrev date_of_second : ℕ → Date
date_of_second t = record { year = 2012; month = 7; day = t % 28 + 1 }

abbrev day_of_second : ℕ → Option Date
day_of_second t = some (date_of_second t)

get_filename-Placed_example :
    Placed day_of_second two_roots 0 talking
      (get_filename (λ n. false) day_of_second two_roots 0 talking)
get_filename-Placed_example =
    get_filename-Placed (λ n. false) day_of_second two_roots 0 talking (omega arith) (omega arith)

get_filename_test : get_filename (λ n. false) day_of_second two_roots 0 talking ≡ (
  named 2
      (name_in (date_of_second (began talking)) talking (47 ∷ 98 ∷ []) true)
      (name_in (date_of_second (began talking)) talking (47 ∷ 98 ∷ []) false),
  1,
)
unfolding get_filename choose_dir find_existing from_root get_root_dir search_dir first_dir
get_filename_test = refl
