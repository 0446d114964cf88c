-- ===== src/Voice/Parser/Store.antt =====
-- The two branches of `voice_parser` in src/voice_parser.c that keep the voice of a packet.
use vpu.Common.{
  ℕ, ◌+◌, ◌-◌, ◌%◌, ◌^◌, none, some, List, [], ◌∷◌, ltb, leb, ◌==◌, if◌then◌else◌, blit,
}
use vpu.Voice.{voice_buf, fax_buf, VoiceFile, fax_up, fax_down, World, bytes_from, encrypt_voice}
use vpu.Voice.Files.{emit, write_voice_file, send_voice_data}
use vpu.Voice.Parser.Packet.{Header, Env}

-- A full buffer goes to the player and to the files, and both counts start again.
unfoldable pub flush : Env → World → World
flush env w =
    let w' = write_voice_file (send_voice_data env.player_full w) in
    record w' { file = record (w'.file) { data_count_up = 0; data_count_down = 0 } }

-- The branch of `calldir == 1`, in three steps: the packet number, the voice buffer, the fax buffer.
unfoldable pub number_up : Header → World → World
number_up hdr w = record w {
  file = record (w.file) {
    up_lost = if w.file.up_no == hdr.data_no then w.file.up_lost else (w.file.up_lost + 1) % 2 ^ 32;
    up_no = (hdr.data_no + 1) % 256;
  };
}

-- how many bytes of the packet go into the buffer
abbrev pub room_up : Header → VoiceFile → ℕ
room_up hdr f =
    let left = voice_buf - f.data_count_up in if ltb left hdr.data_len then left else hdr.data_len

unfoldable pub buffer_up : Header → List ℕ → World → World
buffer_up hdr pkt w =
    let n = room_up hdr w.file in
    record w {
      file = record (w.file) {
        data_up = blit w.file.data_up w.file.data_count_up (encrypt_voice (bytes_from pkt 37 n));
        data_count_up = w.file.data_count_up + n;
        up_end_flag = if hdr.data_mark == 2 then 1 else w.file.up_end_flag;
      };
    }

-- `n` is `data_len` as the voice buffer has left it
unfoldable pub fax_data_up : ℕ → List ℕ → World → World
fax_data_up n pkt w = elim (w.file.cdr_node) [
  | none ↦ w
  | some node ↦
      if ltb w.file.fax_data_len_up fax_buf
      then (let left = fax_buf - w.file.fax_data_len_up in
          let m = if ltb n left then n else left in
          emit (fax_up node w.file.fax_data_len_up (bytes_from pkt 37 m) ∷ [])
            (record w { file = record (w.file) { fax_data_len_up = w.file.fax_data_len_up + m } }))
      else w
]

unfoldable pub store_up : Env → Header → List ℕ → World → World
store_up env hdr pkt w =
    let w1 = number_up hdr w in
    let w2 = if leb voice_buf w1.file.data_count_up then flush env w1 else w1 in
    fax_data_up (room_up hdr w2.file) pkt (buffer_up hdr pkt w2)

-- the other branch
unfoldable pub number_down : Header → World → World
number_down hdr w = record w {
  file = record (w.file) {
    down_lost =
        if w.file.down_no == hdr.data_no then w.file.down_lost else (w.file.down_lost + 1) % 2 ^ 32;
    down_no = (hdr.data_no + 1) % 256;
  };
}

abbrev pub room_down : Header → VoiceFile → ℕ
room_down hdr f =
    let left = voice_buf - f.data_count_down in if ltb left hdr.data_len then left else hdr.data_len

unfoldable pub buffer_down : Header → List ℕ → World → World
buffer_down hdr pkt w =
    let n = room_down hdr w.file in
    record w {
      file = record (w.file) {
        data_down =
            blit w.file.data_down w.file.data_count_down (encrypt_voice (bytes_from pkt 37 n));
        data_count_down = w.file.data_count_down + n;
        down_end_flag = if hdr.data_mark == 2 then 1 else w.file.down_end_flag;
      };
    }

unfoldable pub fax_data_down : ℕ → List ℕ → World → World
fax_data_down n pkt w = elim (w.file.cdr_node) [
  | none ↦ w
  | some node ↦
      if ltb w.file.fax_data_len_down fax_buf
      then (let left = fax_buf - w.file.fax_data_len_down in
          let m = if ltb n left then n else left in
          emit (fax_down node w.file.fax_data_len_down (bytes_from pkt 37 m) ∷ []) (record w {
            file = record (w.file) { fax_data_len_down = w.file.fax_data_len_down + m };
          }))
      else w
]

unfoldable pub store_down : Env → Header → List ℕ → World → World
store_down env hdr pkt w =
    let w1 = number_down hdr w in
    let w2 = if leb voice_buf w1.file.data_count_down then flush env w1 else w1 in
    fax_data_down (room_down hdr w2.file) pkt (buffer_down hdr pkt w2)
