-- ===== src/Tones/Signals.antt =====
-- The callbacks of the modems in src/fax_decode.c, and the page that they begin and end. The three
-- functions for the fast modems differ in the modem only, so they are one here.
use vpu.Common.{
  ℕ, true, false, Option, none, some, List, [], ◌∷◌, ◌++◌, ltb, if◌then◌else◌, take, replicate,
}
use vpu.Tones.{
  SpanDsp, Line, Modem, same_modem, Signal, bit, trained, carrier_down, other_status, T4Call,
  set_rx_encoding, set_x_resolution, set_y_resolution, set_image_width, start_page, end_page,
  put_bit, put_chunk,
}
use vpu.Tones.Frames.{hdlc_rx_put_bit}

abbrev pub call : T4Call → Line → Line
call c l = record l { t4_rx_state = c ∷ l.t4_rx_state }

unfoldable pub t4_begin : Line → Line
t4_begin l = record l {
  t4_rx_state =
      start_page
      ∷ set_image_width l.image_width
      ∷ set_y_resolution l.y_resolution
      ∷ set_x_resolution
      ∷ set_rx_encoding l.line_encoding
      ∷ l.t4_rx_state;
  t4_up = true;
  ecm_len = replicate 256 none;
}

-- `ecm_len[idx][i] > 0`, with the length
abbrev pub chunk_of : Option ℕ → List ℕ → List T4Call
chunk_of none row = []
chunk_of (some n) row = if ltb 0 n then put_chunk (take n row) ∷ [] else []

-- the calls of the loop over the ECM frames, the last one first
unfoldable pub put_chunks : List (Option ℕ) → List (List ℕ) → List T4Call → List T4Call
put_chunks [] rows calls = calls
put_chunks (n ∷ ns) [] calls = put_chunks ns [] (chunk_of n [] ++ calls)
put_chunks (n ∷ ns) (row ∷ rows) calls = put_chunks ns rows (chunk_of n row ++ calls)

-- the calls before `t4_rx_end_page`
unfoldable pub page_calls : Line → List T4Call
page_calls l =
    if l.error_correcting_mode then put_chunks l.ecm_len l.ecm_data l.t4_rx_state else l.t4_rx_state

unfoldable pub t4_end : Line → Line
t4_end l = if l.t4_up then record l { t4_rx_state = end_page ∷ page_calls l; t4_up = false } else l

-- `if (fast_trained[idx] == FAX_V17_RX) fast_trained[idx] = FAX_NONE`
unfoldable pub untrain : Modem → Line → Line
untrain m l = elim (l.fast_trained) [
  | none ↦ l
  | some m' ↦ if same_modem m' m then record l { fast_trained = none } else l
]

module _ (lib : SpanDsp) where
  -- the call of t4_rx_put_bit, and what follows if it says that the page is over
  unfoldable pub t4_rx_put_bit : ℕ → Line → Line
  t4_rx_put_bit b l =
      let l' = call (put_bit b) l in if lib.page_ends l.t4_rx_state b then t4_end l' else l'

  unfoldable pub v21_put_bit : Signal → Line → Option Line
  v21_put_bit (bit b) l = elim (l.fast_trained) [ none ↦ hdlc_rx_put_bit lib b l | some m ↦ some l ]
  v21_put_bit trained l = some l
  v21_put_bit carrier_down l = some l
  v21_put_bit other_status l = some l

  -- `v17_put_bit`, `v29_put_bit` and `v27ter_put_bit`
  unfoldable pub fast_put_bit : Modem → Signal → Line → Option Line
  fast_put_bit m (bit b) l =
      if l.error_correcting_mode then hdlc_rx_put_bit lib b l else some (t4_rx_put_bit b l)
  fast_put_bit m trained l = some (t4_begin (record l { fast_trained = some m }))
  fast_put_bit m carrier_down l = some (untrain m (t4_end l))
  fast_put_bit m other_status l = some l
