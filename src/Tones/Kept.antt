-- ===== src/Tones/Kept.antt =====
-- Every step of the decoder of src/fax_decode.c succeeds, and keeps the state of its fax thread good.
use vpu.Common.{
  false, ℕ, ◌+◌, ◌-◌, ◌≤◌, ◌<◌, ◌≡◌, inl, inr, refl, ◌∙◌, true, Bool-cases, Option, none, some,
  List, [], ◌∷◌, ◌++◌, ltb, leb, ◌==◌, if◌then◌else◌, take, drop, length, byte_at, get_or, arith,
  tests, length-set, length-take, length-append, length-drop, length-replicate, leb→le, le→not_ltb,
  if_keeps, if_splits,
}
use vpu.Tones.{
  SpanDsp, Line, Modem, same_modem, Frame, status, frame, Signal, bit, trained, carrier_down,
  other_status, T4Call, put_bit,
}
use vpu.Tones.Dcs.{check_rx_dcs, read_dcs}
use vpu.Tones.Frames.{
  store_fcd, accept_type, hdlc_accept, accept_all, hdlc_rx_put_bit, good_header, type_of,
}
use vpu.Tones.Signals.{
  call, t4_begin, chunk_of, put_chunks, page_calls, t4_end, untrain, t4_rx_put_bit, v21_put_bit,
  fast_put_bit,
}
use vpu.Tones.Lines.{
  All, All-set, All-replicate, All-get_or, Len, Row, IsLine, FrameOk, Sane, is_begun, Paged, InPage,
  Gives, Good, bind-Gives,
}

stored-Row :
    (msg old : List ℕ) (len : ℕ)
    → len ≤ 260
    → Row old
    → Row (take (len - 4) (drop 4 msg) ++ drop (length (take (len - 4) (drop 4 msg))) old)
stored-Row msg old len h r =
    let new = take (len - 4) (drop 4 msg) in
    omega (
      arith,
      length-append new (drop (length new) old),
      length-drop (length new) old,
      length-take (len - 4) (drop 4 msg),
    )

store_fcd-Good :
    (msg : List ℕ) (len : ℕ) (l : Line)
    → Good l
    → 4 ≤ len
    → len ≤ length msg
    → byte_at msg 3 < 256
    → Gives (store_fcd msg len l) Good
unfolding store_fcd
store_fcd-Good msg len l (k, p) four fits byte = elim (Bool-cases (leb len (4 + 256))) [
  | inl small ↦
      let no = byte_at msg 3 in
      rw small (
        rw (le→not_ltb len 4 four, le→not_ltb (length msg) len fits)
          (
            record {
              rows = length-set l.ecm_data no _ ∙ k.rows;
              lens = length-set l.ecm_len no _ ∙ k.lens;
              row = All-set Row l.ecm_data no _ k.row (
                  stored-Row msg (get_or l.ecm_data no []) len (leb→le _ _ small)
                    (All-get_or Row l.ecm_data no [] k.row (rw (k.rows) byte)));
              len = All-set Len l.ecm_len no (some (len - 4)) k.len (omega tests);
              flag = k.flag;
            },
            record { up = p.up; paged = p.paged },
          ))
  | inr big ↦ rw big (k, p)
]

check_rx_dcs-Good : (max : ℕ) (msg : List ℕ) (l : Line) → Good l → Good (check_rx_dcs max msg l)
unfolding check_rx_dcs read_dcs
check_rx_dcs-Good max msg l (k, p) =
    if_keeps Good (ltb (length msg) 6) (k, p)
      (
        record { rows = k.rows; lens = k.lens; row = k.row; len = k.len; flag = k.flag },
        record { up = p.up; paged = p.paged },
      )

module _ (lib : SpanDsp) where
  accept_type-Good :
      (msg : List ℕ) (len : ℕ) (l : Line)
      → Good l
      → 4 ≤ len
      → len ≤ length msg
      → All (λ b. b < 256) msg
      → Gives (accept_type lib msg len l) Good
  unfolding accept_type
  accept_type-Good msg len l (k, p) four fits bytes =
      if_keeps (λ r. Gives r Good) (type_of msg == lib.t4_fcd)
        (store_fcd-Good msg len l (k, p) four fits
          (All-get_or (λ b. b < 256) msg 3 0 bytes (omega arith)))
        (if_keeps (λ r. Gives r Good) (type_of msg == lib.t30_dcs)
          (check_rx_dcs-Good lib.max_dis_dtc_dcs_len (take len msg) l (k, p))
          (if_keeps (λ r. Gives r Good) (type_of msg == lib.t30_cfr)
            (
              record { rows = k.rows; lens = k.lens; row = k.row; len = k.len; flag = omega arith },
              record { up = p.up; paged = p.paged },
            )
            (k, p)))

  hdlc_accept-Good : (f : Frame) (l : Line) → Good l → FrameOk f → Gives (hdlc_accept lib f l) Good
  unfolding hdlc_accept
  hdlc_accept-Good status l g ok = g
  hdlc_accept-Good (frame msg len false) l g ok = g
  hdlc_accept-Good (frame msg len true) l g ok =
      let (four, fits, bytes) = ok refl in
      if_keeps (λ r. Gives r Good) (good_header msg) (accept_type-Good msg len l g four fits bytes)
        g

  accept_all-Good :
      (fs : List Frame) (l : Line) → Good l → All FrameOk fs → Gives (accept_all lib fs l) Good
  unfolding accept_all
  accept_all-Good [] l g ok = g
  accept_all-Good (f ∷ fs) l g (ok, oks) =
      bind-Gives Good Good (hdlc_accept lib f l) (accept_all lib fs) (hdlc_accept-Good f l g ok)
        (λ l' g'. accept_all-Good fs l' g' oks)

  hdlc_rx_put_bit-Good :
      Sane lib → (b : ℕ) (l : Line) → Good l → Gives (hdlc_rx_put_bit lib b l) Good
  unfolding hdlc_rx_put_bit
  hdlc_rx_put_bit-Good sane b l (k, p) =
      accept_all-Good (lib.frames l.hdlcrx b) (record l { hdlcrx = b ∷ l.hdlcrx })
        (
          record { rows = k.rows; lens = k.lens; row = k.row; len = k.len; flag = k.flag },
          record { up = p.up; paged = p.paged },
        )
        (sane.good l.hdlcrx b)

-- The calls for one chunk, and for all of them.
chunk_of-Paged :
    (n : Option ℕ) (row : List ℕ) (calls : List T4Call)
    → Len n
    → Row row
    → Paged calls
    → Paged (chunk_of n row ++ calls) × (is_begun (chunk_of n row ++ calls) ≡ is_begun calls)
chunk_of-Paged none row calls h r p = (p, refl)
chunk_of-Paged (some n) row calls h r p = elim (Bool-cases (ltb 0 n)) [
  | inl some_bytes ↦
      rw some_bytes ((omega (tests, length-take n row), omega (arith, length-take n row), p), refl)
  | inr no_bytes ↦ rw no_bytes (p, refl)
]

put_chunks-Paged :
    (ns : List (Option ℕ)) (rows : List (List ℕ)) (calls : List T4Call)
    → All Len ns
    → All Row rows
    → length ns ≤ length rows
    → Paged calls
    → Paged (put_chunks ns rows calls) × (is_begun (put_chunks ns rows calls) ≡ is_begun calls)
unfolding put_chunks
put_chunks-Paged [] rows calls h r le p = (p, refl)
put_chunks-Paged (n ∷ ns) [] calls h r le p = absurd (omega arith)
put_chunks-Paged (n ∷ ns) (row ∷ rows) calls (h, hs) (r, rs) le p =
    let (p', e) = chunk_of-Paged n row calls h r p in
    let (p'', e') = put_chunks-Paged ns rows (chunk_of n row ++ calls) hs rs (omega arith) p' in
    (p'', e' ∙ e)

t4_begin-Good : (l : Line) → IsLine l → InPage l → Good (t4_begin l)
unfolding t4_begin
t4_begin-Good l k p = (
  record {
    rows = k.rows;
    lens = length-replicate {A = Option ℕ} 256 none;
    row = k.row;
    len = All-replicate Len 256 none tt;
    flag = k.flag;
  },
  record { up = refl; paged = p.paged },
)

t4_end-Good : (l : Line) → Good l → Good (t4_end l)
unfolding t4_end page_calls
t4_end-Good l (k, p) =
    if_splits Good l.t4_up
      (λ up.
        let begun : is_begun l.t4_rx_state ≡ true = p.up ∙ up in
        let (q, e) =
          put_chunks-Paged l.ecm_len l.ecm_data l.t4_rx_state k.len k.row
            (omega (arith, k.lens, k.rows)) p.paged in
        (
          record { rows = k.rows; lens = k.lens; row = k.row; len = k.len; flag = k.flag },
          record {
            up = refl;
            paged =
                if_keeps (λ calls. (is_begun calls ≡ true) × Paged calls) l.error_correcting_mode
                  (e ∙ begun, q) (begun, p.paged);
          },
        ))
      (λ _. (k, p))

untrain-Good : (m : Modem) (l : Line) → Good l → Good (untrain m l)
unfolding untrain
untrain-Good m l g = untrained l.fast_trained
  where
    untrained :
        (o : Option Modem)
        → Good (elim o [
          | none ↦ l
          | some m' ↦ if same_modem m' m then record l { fast_trained = none } else l
        ])
    untrained none = g
    untrained (some m') =
        if_keeps Good (same_modem m' m)
          (
            record {
              rows = g.0.rows;
              lens = g.0.lens;
              row = g.0.row;
              len = g.0.len;
              flag = g.0.flag;
            },
            record { up = g.1.up; paged = g.1.paged },
          )
          g

module _ (lib : SpanDsp) (sane : Sane lib) where
  t4_rx_put_bit-Good : (b : ℕ) (l : Line) → Good l → Good (t4_rx_put_bit lib b l)
  unfolding t4_rx_put_bit
  t4_rx_put_bit-Good b l (k, p) =
      let g : Good (call (put_bit b) l) = (
        record { rows = k.rows; lens = k.lens; row = k.row; len = k.len; flag = k.flag },
        record { up = p.up; paged = p.paged },
      ) in
      if_keeps Good (lib.page_ends l.t4_rx_state b) (t4_end-Good (call (put_bit b) l) g) g

  pub v21_put_bit-Good : (s : Signal) (l : Line) → Good l → Gives (v21_put_bit lib s l) Good
  unfolding v21_put_bit
  v21_put_bit-Good trained l g = g
  v21_put_bit-Good carrier_down l g = g
  v21_put_bit-Good other_status l g = g
  v21_put_bit-Good (bit b) l g = put l.fast_trained
    where
      put :
          (o : Option Modem)
          → Gives (elim o [ none ↦ hdlc_rx_put_bit lib b l | some m ↦ some l ]) Good
      put none = hdlc_rx_put_bit-Good lib sane b l g
      put (some m) = g

  pub fast_put_bit-Good :
      (m : Modem) (s : Signal) (l : Line) → Good l → Gives (fast_put_bit lib m s l) Good
  unfolding fast_put_bit
  fast_put_bit-Good m (bit b) l g =
      if_keeps (λ r. Gives r Good) l.error_correcting_mode (hdlc_rx_put_bit-Good lib sane b l g)
        (t4_rx_put_bit-Good b l g)
  fast_put_bit-Good m trained l (k, p) =
      t4_begin-Good (record l { fast_trained = some m })
        (record { rows = k.rows; lens = k.lens; row = k.row; len = k.len; flag = k.flag })
        (record { up = p.up; paged = p.paged })
  fast_put_bit-Good m carrier_down l g = untrain-Good m (t4_end l) (t4_end-Good l g)
  fast_put_bit-Good m other_status l g = g
