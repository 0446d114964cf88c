-- ===== src/Tones/Frames.antt =====
-- `hdlc_accept` in src/fax_decode.c, which SpanDSP calls for each frame, and the bits that lead to it.
use vpu.Common.{
  ℕ, ◌+◌, ◌-◌, ◌*◌, ◌/◌, Bool, ◌&&◌, ◌||◌, Option, none, some, List, [], ◌∷◌, ◌++◌, leb, ltb, ◌==◌,
  if◌then◌else◌, take, drop, length, byte_at, get_or, set,
}
use vpu.Tones.{SpanDsp, Line, Frame, status, frame}
use vpu.Tones.Dcs.{check_rx_dcs}

-- `msg[0] == 0xFF && (msg[1] == 0x03 || msg[1] == 0x13)`
abbrev pub good_header : List ℕ → Bool
good_header msg = byte_at msg 0 == 0xff && (byte_at msg 1 == 0x03 || byte_at msg 1 == 0x13)

-- `msg[2] & 0xFE`
abbrev pub type_of : List ℕ → ℕ
type_of msg = byte_at msg 2 / 2 * 2

-- the memcpy of `len - 4` bytes, and the store of their number
abbrev pub stored : List ℕ → ℕ → Line → Line
stored msg len l =
    let no = byte_at msg 3 in
    let new = take (len - 4) (drop 4 msg) in
    record l {
      ecm_data = set l.ecm_data no (new ++ drop (length new) (get_or l.ecm_data no []));
      ecm_len = set l.ecm_len no (some (len - 4));
    }

-- T4_FCD: the number of bytes `len - 4` is an int, which memcpy takes as a size_t of 64 bits. The bytes
-- lie in the buffer `msg`.
unfoldable pub store_fcd : List ℕ → ℕ → Line → Option Line
store_fcd msg len l =
    if leb len (4 + 256)
    then (if ltb len 4 || ltb (length msg) len then none else some (stored msg len l))
    else some l

module _ (lib : SpanDsp) where
  -- the switch on the type of a frame
  unfoldable pub accept_type : List ℕ → ℕ → Line → Option Line
  accept_type msg len l =
      if type_of msg == lib.t4_fcd
      then store_fcd msg len l
      else if type_of msg == lib.t30_dcs
      then some (check_rx_dcs lib.max_dis_dtc_dcs_len (take len msg) l)
      else if type_of msg == lib.t30_cfr
      then some (record l { fax_flag = 1 })
      else some l

  unfoldable pub hdlc_accept : Frame → Line → Option Line
  hdlc_accept status l = some l
  hdlc_accept (frame msg len good) l =
      if good then (if good_header msg then accept_type msg len l else some l) else some l

  -- the frames that one bit completes, in their order
  unfoldable pub accept_all : List Frame → Line → Option Line
  accept_all [] l = some l
  accept_all (f ∷ fs) l = elim (hdlc_accept f l) [ none ↦ none | some l' ↦ accept_all fs l' ]

  -- `hdlc_rx_put_bit(&hdlcrx[idx], bit)`
  unfoldable pub hdlc_rx_put_bit : ℕ → Line → Option Line
  hdlc_rx_put_bit b l = accept_all (lib.frames l.hdlcrx b) (record l { hdlcrx = b ∷ l.hdlcrx })
