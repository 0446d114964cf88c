-- ===== src/Tones.antt =====
-- The decoding of fax tones in src/fax_decode.c, up to `decode_mem`. The arrays with an entry for each fax
-- thread are one record here, the entry `idx` of each of them: no function touches another entry.
-- SpanDSP is a parameter: its constants, and what it answers as a function of all calls that it has had.
-- `none` as a result stands for a memcpy outside an object.
pub mod Ident
pub mod Dcs
pub mod Frames
pub mod Signals
pub mod Page
pub mod Recording
pub mod Lines
pub mod Kept
pub mod Decoded
pub mod Stale
pub mod Wave
mod Examples
use vpu.Common.{
  ℕ, zero, suc, ◌+◌, ◌*◌, ◌/◌, ◌%◌, ◌^◌, Bool, true, false, Option, none, some, List, [], ◌∷◌, ◌==◌,
  if◌then◌else◌, replicate,
}

-- FAX_V27TER_RX, FAX_V29_RX and FAX_V17_RX; FAX_NONE is `none` of `Option Modem`
pub data Modem : Type 0 where
  v27ter v29 v17 : Modem

abbrev pub same_modem : Modem → Modem → Bool
same_modem v27ter v27ter = true
same_modem v29 v29 = true
same_modem v17 v17 = true
same_modem _ _ = false

-- T4_COMPRESSION_ITU_T4_1D, T4_COMPRESSION_ITU_T4_2D and T4_COMPRESSION_ITU_T6
pub data Compression : Type 0 where
  t4_1d t4_2d t6 : Compression

-- T4_Y_RESOLUTION_STANDARD, T4_Y_RESOLUTION_FINE and T4_Y_RESOLUTION_SUPERFINE
pub data Resolution : Type 0 where
  standard fine superfine : Resolution

-- The calls of the T.4 receiver of SpanDSP; a width of -1 is `none`.
pub data T4Call : Type 0 where
  set_rx_encoding : Compression → T4Call
  set_x_resolution : T4Call
  set_y_resolution : Resolution → T4Call
  set_image_width : Option ℕ → T4Call
  start_page end_page release : T4Call
  put_bit : ℕ → T4Call
  put_chunk : List ℕ → T4Call

-- A call of `hdlc_accept`: with a negative `len`, or with the buffer, `len` and `ok`.
pub data Frame : Type 0 where
  status : Frame
  frame : List ℕ → ℕ → Bool → Frame

-- What a modem hands to its `put_bit`: a bit, SIG_STATUS_TRAINING_SUCCEEDED, SIG_STATUS_CARRIER_DOWN or
-- another status.
pub data Signal : Type 0 where
  bit : ℕ → Signal
  trained carrier_down other_status : Signal

-- The constants of SpanDSP that the code uses; the frames that `hdlc_rx_put_bit` hands to `hdlc_accept`
-- for a bit, after the bits before it; and what `t4_rx_put_bit` returns, after the calls before it. The
-- last bit, and the last call, comes first.
pub record SpanDsp : Type 0 where
  pub t4_fcd : ℕ
  pub t30_dcs : ℕ
  pub t30_cfr : ℕ
  pub max_dis_dtc_dcs_len : ℕ
  pub max_ident_len : ℕ
  pub sample_rate : ℕ
  pub frames : List ℕ → ℕ → List Frame
  pub page_ends : List T4Call → ℕ → Bool

-- The entry of a fax thread in each of the arrays. `t4_rx_state` is the list of the calls that it has had, and
-- `hdlcrx` that of the bits; -1 in `image_width`, `current_fallback` and `ecm_len` is `none`.
pub record Line : Type 0 where
  pub t4_rx_state : List T4Call
  pub t4_up : Bool
  pub hdlcrx : List ℕ
  pub fast_trained : Option Modem
  pub ecm_data : List (List ℕ)
  pub ecm_len : List (Option ℕ)
  pub line_encoding : Compression
  pub y_resolution : Resolution
  pub image_width : Option ℕ
  pub octets_per_ecm_frame : ℕ
  pub error_correcting_mode : Bool
  pub current_fallback : Option ℕ
  pub fax_flag : ℕ

-- the values with which the process starts
abbrev pub first_line : Line
first_line = record {
  t4_rx_state = [];
  t4_up = false;
  hdlcrx = [];
  fast_trained = none;
  ecm_data = replicate 256 (replicate 260 0);
  ecm_len = replicate 256 (some 0);
  line_encoding = t4_1d;
  y_resolution = standard;
  image_width = some 1728;
  octets_per_ecm_frame = 256;
  error_correcting_mode = false;
  current_fallback = some 0;
  fax_flag = 0;
}

-- An entry of `fallback_sequence`; its two constants for a modem are one constructor here.
pub record Fallback : Type 0 where
  pub bit_rate : ℕ
  pub modem_type : Modem
  pub dcs_code : ℕ

abbrev entry : ℕ → Modem → ℕ → Fallback
entry rate modem code = record { bit_rate = rate; modem_type = modem; dcs_code = code }

-- the table without the entry of bit rate 0 that ends it
abbrev pub fallback_sequence : List Fallback
fallback_sequence =
    entry 14400 v17 0x20
    ∷ entry 12000 v17 0x28
    ∷ entry 9600 v17 0x24
    ∷ entry 9600 v29 0x04
    ∷ entry 7200 v17 0x2c
    ∷ entry 7200 v29 0x0c
    ∷ entry 4800 v27ter 0x08
    ∷ entry 2400 v27ter 0x00
    ∷ []

-- the linear scan, from the entry `i` on
unfoldable pub find_from : ℕ → List Fallback → ℕ → Option ℕ
find_from i [] code = none
find_from i (f ∷ fs) code = if f.dcs_code == code then some i else find_from (i + 1) fs code

unfoldable pub find_fallback_entry : ℕ → Option ℕ
unfolding find_from
find_fallback_entry code = find_from 0 fallback_sequence code
