-- ===== src/Tones/Examples.antt =====
-- Tests and applications for the decoder of fax tones.
use vpu.Common.{
  ℕ, ◌+◌, ◌≡◌, refl, Bool, true, false, Option, none, some, List, [], ◌∷◌, ◌==◌, if◌then◌else◌,
  length, drop, arith, replicate, length-replicate,
}
use vpu.Tones.{
  SpanDsp, Line, first_line, Modem, v17, Frame, frame, bit, trained, t4_2d, fine, end_page,
  find_fallback_entry,
}
use vpu.Tones.Ident.{decode_20digit_msg, message, decode_20digit_msg-message}
use vpu.Tones.Dcs.{v17_7200, Choice}
use vpu.Tones.Frames.{store_fcd, accept_type, hdlc_accept, accept_all, hdlc_rx_put_bit}
use vpu.Tones.Signals.{t4_begin, t4_end, t4_rx_put_bit, v21_put_bit, fast_put_bit}
use vpu.Tones.Recording.{
  Chunk, Sound, v21_rx, fast_rx, rx_chunk, rx_loop, end_alaw, decode_alaw, decode_mem, decode_node,
}
use vpu.Tones.Lines.{All, Len, Row, All-replicate, Good, Sane, Gives, FrameOk}
use vpu.Tones.Decoded.{Fine, decode_alaw-Fine}
use vpu.Tones.Stale.{QuietSound, Ignored, decode_node-Ignored}
use vpu.Tones.Page.{EcmFrame, sent_all, last_frame, chunks_from, page-in_order}
use vpu.Tones.Wave.{AlawHead, read_le32, wav_file, wav_file-fields}

-- A SpanDSP that hands over the same frame for each bit 1, and ends no page.
abbrev spandsp_of : Frame → SpanDsp
spandsp_of f = record {
  t4_fcd = 0x06;
  t30_dcs = 0x82;
  t30_cfr = 0x84;
  max_dis_dtc_dcs_len = 22;
  max_ident_len = 20;
  sample_rate = 8000;
  frames = λ bits b. if b == 1 then f ∷ [] else [];
  page_ends = λ calls b. false;
}

abbrev cfr_frame : Frame
cfr_frame = frame (255 ∷ 19 ∷ 0x84 ∷ 0 ∷ []) 4 true

abbrev spandsp : SpanDsp
spandsp = spandsp_of cfr_frame

abbrev short_fcd : Frame
short_fcd = frame (255 ∷ 19 ∷ 0x06 ∷ []) 3 true

-- A frame of image data without its number makes memcpy copy 2^64 - 1 bytes.
short_fcd_faults : hdlc_accept spandsp short_fcd first_line ≡ none
unfolding hdlc_accept accept_type store_fcd
short_fcd_faults = refl

fallback_12000 : find_fallback_entry 0x28 ≡ some 1
unfolding find_fallback_entry
fallback_12000 = refl

decode_20digit_msg-message_test :
    decode_20digit_msg 20 (255 ∷ 3 ∷ 0x42 ∷ message (54 ∷ 49 ∷ []) 3) 8 ≡ some (54 ∷ 49 ∷ [])
decode_20digit_msg-message_test =
    decode_20digit_msg-message 20 255 3 0x42 3 (54 ∷ 49 ∷ []) (omega arith) (omega arith)

abbrev choice : Choice
choice = record {
  rate = v17_7200;
  compression = t4_2d;
  resolution = fine;
  r16 = false;
  width = 1;
  ecm = true;
  long_frames = true;
}

spandsp-Sane : Sane spandsp
spandsp-Sane = record { good = λ bits b. good_for b }
  where
    good_for : (b : ℕ) → All FrameOk (if b == 1 then cfr_frame ∷ [] else [])
    good_for b = elim (b == 1) as (λ t. All FrameOk (if t then cfr_frame ∷ [] else [])) [
      | true ↦ ((λ good. (omega arith, omega arith, omega arith)), tt)
      | false ↦ tt
    ]

first_line-Good : Good first_line
first_line-Good = (
  record {
    rows = length-replicate {A = List ℕ} 256 (replicate 260 0);
    lens = length-replicate {A = Option ℕ} 256 (some 0);
    row = All-replicate Row 256 (replicate 260 0) (length-replicate {A = ℕ} 260 0);
    len = All-replicate Len 256 (some 0) (omega arith);
    flag = omega arith;
  },
  record { up = refl; paged = tt },
)

abbrev sound_of : List Chunk → Sound
sound_of cs = record {
  made = true;
  info = some (record { samplerate = 8000; channels = 1 });
  t4_init = true;
  chunks = cs;
  closed = true;
  picture = false;
}

-- a confirmation to receive, by V.21
abbrev cfr : Chunk
cfr = record {
  v21_signals = bit 0 ∷ bit 1 ∷ [];
  v17_signals = [];
  v29_signals = [];
  v27ter_signals = [];
}

-- a page that the recording does not see the end of
abbrev cut_page : Chunk
cut_page = record {
  v21_signals = [];
  v17_signals = trained ∷ bit 1 ∷ bit 0 ∷ [];
  v29_signals = [];
  v27ter_signals = [];
}

decode_alaw-Fine_example : Fine (decode_alaw spandsp (sound_of (cfr ∷ cut_page ∷ [])) first_line)
decode_alaw-Fine_example =
    decode_alaw-Fine spandsp spandsp-Sane (sound_of (cfr ∷ cut_page ∷ [])) first_line
      first_line-Good refl

abbrev answer : Option (Bool × Line) → Bool × Option Modem
answer none = (false, none)
answer (some (fax, l)) = (fax, l.fast_trained)

-- The confirmation is heard at first, but not behind a page that was cut off.
heard : answer (decode_node spandsp (sound_of (cfr ∷ [])) (sound_of []) first_line) ≡ (true, none)
unfolding decode_node decode_mem decode_alaw end_alaw rx_loop rx_chunk v21_rx fast_rx v21_put_bit
    fast_put_bit hdlc_rx_put_bit accept_all hdlc_accept accept_type
heard = refl

left_deaf :
    answer (decode_node spandsp (sound_of (cut_page ∷ [])) (sound_of (cfr ∷ [])) first_line)
    ≡ (false, some v17)
unfolding decode_node decode_mem decode_alaw end_alaw rx_loop rx_chunk v21_rx fast_rx v21_put_bit
    fast_put_bit t4_begin t4_rx_put_bit
left_deaf = refl

abbrev deaf_line : Line
deaf_line = record first_line { fast_trained = some v17; t4_up = true }

quiet-QuietSound : QuietSound (sound_of (cfr ∷ []))
quiet-QuietSound = record {
  quiet = (record { v17_quiet = tt; v29_quiet = tt; v27ter_quiet = tt }, tt);
  no_picture = refl;
}

decode_node-Ignored_test :
    Ignored v17 (decode_node spandsp (sound_of (cfr ∷ [])) (sound_of (cfr ∷ [])) deaf_line)
decode_node-Ignored_test =
    decode_node-Ignored spandsp v17 (sound_of (cfr ∷ [])) (sound_of (cfr ∷ [])) deaf_line
      (record { stays = refl; mode = refl; flag = refl }) quiet-QuietSound quiet-QuietSound

abbrev two_frames : List EcmFrame
two_frames =
    record { no = 1; bytes = 7 ∷ 8 ∷ [] }
    ∷ record { no = 0; bytes = 5 ∷ [] }
    ∷ record { no = 1; bytes = 9 ∷ [] }
    ∷ []

abbrev ecm_line : Line
ecm_line = record first_line { error_correcting_mode = true }

page-in_order_example :
    Gives (accept_all spandsp (sent_all spandsp two_frames) (t4_begin ecm_line)) (λ l.
      (t4_end l).t4_rx_state
      ≡ end_page ∷ chunks_from (last_frame two_frames) 0 256 (t4_begin ecm_line).t4_rx_state)
page-in_order_example =
    page-in_order spandsp two_frames ecm_line (omega arith) refl
      (length-replicate {A = List ℕ} 256 (replicate 260 0)) (omega arith)

abbrev no_head : AlawHead
no_head = record {
  chunk_id = 0;
  chunk_size = 0;
  format = 0;
  sub_chunk1_id = 0;
  sub_chunk1_size = 0;
  audio_format = 0;
  num_channels = 0;
  sample_rate = 0;
  byte_rate = 0;
  block_align = 0;
  bits_per_sample = 0;
  wave_fact = 0;
  temp1 = 0;
  temp2 = 0;
  data_tag = 0;
  data_len = 0;
}

abbrev wav : List ℕ
wav = wav_file 0 0 no_head (1 ∷ 2 ∷ 3 ∷ [])

wav_file-fields_test :
    (read_le32 wav 4 + 10 ≡ length wav)
    × (read_le32 wav 16 ≡ 18)
    × (read_le32 wav 0x26 ≡ 0x61660000)
    × (read_le32 wav 0x34 ≡ 0x61746164)
    × (read_le32 wav 0x38 ≡ 3)
    × (drop 60 wav ≡ 1 ∷ 2 ∷ 3 ∷ [])
wav_file-fields_test = wav_file-fields 0 0 no_head (1 ∷ 2 ∷ 3 ∷ []) (omega arith)
