-- ===== src/Tones/Dcs.antt =====
-- `check_rx_dcs` in src/fax_decode.c: what a DCS frame says about the page that follows.
use vpu.Common.{
  ℕ, zero, suc, ◌+◌, ◌-◌, ◌*◌, ◌/◌, ◌%◌, ◌^◌, ◌≡◌, Bool, true, false, Option, none, some, List, ◌∷◌,
  ◌++◌, ltb, ◌==◌, if◌then◌else◌, take, length, byte_at, get_or, replicate,
}
use vpu.Tones.{
  Line, Modem, Compression, t4_1d, t4_2d, t6, Resolution, standard, fine, superfine, Fallback,
  fallback_sequence, find_fallback_entry,
}

-- The bit `k` of a byte, counted from 0: DISBIT1 is the bit 0.
abbrev pub dis_bit : ℕ → ℕ → Bool
dis_bit k v = v / 2 ^ k % 2 == 1

-- the local copy of the message, cut or padded with zeros to `max` bytes
unfoldable pub pad_dcs : ℕ → List ℕ → List ℕ
pad_dcs max msg = take max msg ++ replicate (max - length msg) 0

-- a row of `widths`; -1 is `none`
abbrev pub widths : Bool → ℕ → Option ℕ
widths r16 zero = some (if r16 then 3456 else 1728)
widths r16 (suc zero) = some (if r16 then 4096 else 2048)
widths r16 (suc (suc zero)) = some (if r16 then 4864 else 2432)
widths r16 _ = none

-- what is read from the padded copy
unfoldable pub read_dcs : List ℕ → Line → Line
read_dcs dcs l = record l {
  octets_per_ecm_frame = if dis_bit 3 (byte_at dcs 6) then 256 else 64;
  y_resolution =
      if dis_bit 0 (byte_at dcs 8)
      then superfine
      else if dis_bit 6 (byte_at dcs 4)
      then fine
      else standard;
  image_width = widths (dis_bit 2 (byte_at dcs 8)) (byte_at dcs 5 % 4);
  line_encoding =
      if dis_bit 6 (byte_at dcs 6) then t6 else if dis_bit 7 (byte_at dcs 4) then t4_2d else t4_1d;
  current_fallback = find_fallback_entry (byte_at dcs 4 / 4 % 16 * 4);
  error_correcting_mode = dis_bit 2 (byte_at dcs 6);
}

-- `max` is T30_MAX_DIS_DTC_DCS_LEN. A message of less than 6 bytes changes nothing.
unfoldable pub check_rx_dcs : ℕ → List ℕ → Line → Line
check_rx_dcs max msg l = if ltb (length msg) 6 then l else read_dcs (pad_dcs max msg) l

-- the rates of T.30, each with its modem
pub data Rate : Type 0 where
  v27ter_2400 v27ter_4800 v29_7200 v29_9600 v17_7200 v17_9600 v17_12000 v17_14400 : Rate

abbrev pub bits_per_second : Rate → ℕ
bits_per_second v27ter_2400 = 2400
bits_per_second v27ter_4800 = 4800
bits_per_second v29_7200 = 7200
bits_per_second v29_9600 = 9600
bits_per_second v17_7200 = 7200
bits_per_second v17_9600 = 9600
bits_per_second v17_12000 = 12000
bits_per_second v17_14400 = 14400

abbrev pub modem_of : Rate → Modem
modem_of v27ter_2400 = Modem.v27ter
modem_of v27ter_4800 = Modem.v27ter
modem_of v29_7200 = Modem.v29
modem_of v29_9600 = Modem.v29
modem_of v17_7200 = Modem.v17
modem_of v17_9600 = Modem.v17
modem_of v17_12000 = Modem.v17
modem_of v17_14400 = Modem.v17

-- What a fax machine chooses for a page, as T.30 numbers it: the rate with its modem, the compression, the resolutions, the code of the width, ECM, and the longer ECM frames of the code.
pub record Choice : Type 0 where
  pub rate : Rate
  pub compression : Compression
  pub resolution : Resolution
  pub r16 : Bool
  pub width : ℕ
  pub ecm : Bool
  pub long_frames : Bool

abbrev flag : Bool → ℕ
flag b = if b then 1 else 0

abbrev is_2d : Compression → Bool
is_2d t4_2d = true
is_2d _ = false

abbrev is_t6 : Compression → Bool
is_t6 t6 = true
is_t6 _ = false

abbrev is_fine : Resolution → Bool
is_fine fine = true
is_fine _ = false

abbrev is_superfine : Resolution → Bool
is_superfine superfine = true
is_superfine _ = false

abbrev no_fallback : Fallback
no_fallback = record { bit_rate = 0; modem_type = Modem.v17; dcs_code = 0 }

-- the bits 11 to 14 of a DCS frame
abbrev dcs_bits : ℕ → ℕ → ℕ → ℕ → ℕ
dcs_bits b11 b12 b13 b14 = b11 * 4 + b12 * 8 + b13 * 16 + b14 * 32

-- Table 2 of T.30: the bits for each rate
abbrev code_of : Rate → ℕ
code_of v27ter_2400 = dcs_bits 0 0 0 0
code_of v27ter_4800 = dcs_bits 0 1 0 0
code_of v29_7200 = dcs_bits 1 1 0 0
code_of v29_9600 = dcs_bits 1 0 0 0
code_of v17_7200 = dcs_bits 1 1 0 1
code_of v17_9600 = dcs_bits 1 0 0 1
code_of v17_12000 = dcs_bits 0 1 0 1
code_of v17_14400 = dcs_bits 0 0 0 1

-- The DCS frame for a choice: three bytes of header, and the bytes 3 and 7 and those behind 8 as they come.
abbrev pub dcs_frame : Choice → ℕ → ℕ → ℕ → ℕ → List ℕ → List ℕ
dcs_frame c control type b3 b7 rest =
    255
    ∷ control
    ∷ type
    ∷ b3
    ∷ (code_of c.rate + flag (is_fine c.resolution) * 64 + flag (is_2d c.compression) * 128)
    ∷ c.width
    ∷ (flag c.ecm * 4 + flag c.long_frames * 8 + flag (is_t6 c.compression) * 64)
    ∷ b7
    ∷ (flag (is_superfine c.resolution) + flag c.r16 * 4)
    ∷ rest

-- the state in which a choice is in force, `i` being the entry of its rate
abbrev pub chosen : Choice → ℕ → Line → Line
chosen c i l = record l {
  octets_per_ecm_frame = if c.long_frames then 256 else 64;
  y_resolution = c.resolution;
  image_width = widths c.r16 c.width;
  line_encoding = c.compression;
  current_fallback = some i;
  error_correcting_mode = c.ecm;
}

-- The entry `i` of the table is that of the rate.
abbrev pub EntryOf : Rate → ℕ → Type 0
EntryOf r i =
    ((get_or fallback_sequence i no_fallback).bit_rate ≡ bits_per_second r)
    × ((get_or fallback_sequence i no_fallback).modem_type ≡ modem_of r)
