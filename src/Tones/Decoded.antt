-- ===== src/Tones/Decoded.antt =====
-- A whole recording in the decoder of src/fax_decode.c.
use vpu.Common.{
  ℕ, ◌≤◌, ◌≡◌, false, not, Option, none, some, List, [], ◌∷◌, ◌==◌, if_keeps, arith, sym,
}
use vpu.Tones.{SpanDsp, Line, Modem, v27ter, v29, v17, Signal, release}
use vpu.Tones.Signals.{call}
use vpu.Tones.Recording.{
  Chunk, SfInfo, Sound, Result, v21_rx, fast_rx, rx_chunk, rx_loop, end_alaw, rx_init, decode_alaw,
}
use vpu.Tones.Lines.{Gives, Good, bind-Gives, then-Gives, Sane}
use vpu.Tones.Kept.{v21_put_bit-Good, fast_put_bit-Good}

module _ (lib : SpanDsp) (sane : Sane lib) where
  v21_rx-Good : (ss : List Signal) (l : Line) → Good l → Gives (v21_rx lib ss l) Good
  unfolding v21_rx
  v21_rx-Good [] l g = g
  v21_rx-Good (s ∷ ss) l g =
      bind-Gives Good Good _ (v21_rx lib ss) (v21_put_bit-Good lib sane s l g) (v21_rx-Good ss)

  fast_rx-Good :
      (m : Modem) (ss : List Signal) (l : Line) → Good l → Gives (fast_rx lib m ss l) Good
  unfolding fast_rx
  fast_rx-Good m [] l g = g
  fast_rx-Good m (s ∷ ss) l g =
      bind-Gives Good Good _ (fast_rx lib m ss) (fast_put_bit-Good lib sane m s l g)
        (fast_rx-Good m ss)

  rx_chunk-Good : (c : Chunk) (l : Line) → Good l → Gives (rx_chunk lib c l) Good
  unfolding rx_chunk
  rx_chunk-Good c l g = then-Gives Good _ _ (v21_rx-Good c.v21_signals l g) (λ l1 g1.
      then-Gives Good _ _ (fast_rx-Good v17 c.v17_signals l1 g1) (λ l2 g2.
        then-Gives Good _ _ (fast_rx-Good v29 c.v29_signals l2 g2)
          (fast_rx-Good v27ter c.v27ter_signals)))

  rx_loop-Good : (cs : List Chunk) (l : Line) → Good l → Gives (rx_loop lib cs l) Good
  unfolding rx_loop
  rx_loop-Good [] l g = g
  rx_loop-Good (c ∷ cs) l g =
      then-Gives Good (rx_chunk lib c l) (rx_loop lib cs) (rx_chunk-Good c l g) (rx_loop-Good cs)

-- a C result of -2, 0 or 1
abbrev pub Value : Option ℕ → Type 0
Value none = Unit
Value (some v) = v ≤ 1

-- what holds of the result of a recording
abbrev pub Fine : Option Result → Type 0
Fine none = ⊥
Fine (some r) = Good r.line × Value r.value

end_alaw-Fine : (sound : Sound) (l : Line) → Good l → Fine (some (end_alaw sound l))
unfolding end_alaw
end_alaw-Fine sound l (k, p) =
    let g : Good (call release l) = (
      record { rows = k.rows; lens = k.lens; row = k.row; len = k.len; flag = k.flag },
      record { up = p.up; paged = p.paged },
    ) in
    if_keeps (λ r. Fine (some r)) sound.closed
      (g, if_keeps Value sound.picture (omega arith) k.flag) (g, tt)

module _ (lib : SpanDsp) (sane : Sane lib) where
  looped-Fine :
      (sound : Sound) (r : Option Line)
      → Gives r Good
      → Fine (elim r [ none ↦ none | some l ↦ some (end_alaw sound l) ])
  looped-Fine sound none g = g
  looped-Fine sound (some l) g = end_alaw-Fine sound l g

  opened-Fine :
      (sound : Sound) (info : Option SfInfo) (l : Line)
      → Good l
      → l.t4_up ≡ false
      → Fine (decode_alaw lib (record sound { info = info }) l)
  unfolding decode_alaw
  opened-Fine sound none l g down = (g, tt)
  opened-Fine sound (some info) l (k, p) down =
      let start : Good (rx_init l) = (
        record { rows = k.rows; lens = k.lens; row = k.row; len = k.len; flag = k.flag },
        record { up = sym down; paged = tt },
      ) in
      if_keeps Fine (not (info.samplerate == lib.sample_rate)) ((k, p), tt)
        (if_keeps Fine (not (info.channels == 1)) ((k, p), tt)
          (if_keeps Fine (not sound.t4_init)
            (
              (
                record { rows = k.rows; lens = k.lens; row = k.row; len = k.len; flag = k.flag },
                record { up = p.up; paged = p.paged },
              ),
              tt,
            )
            (looped-Fine (record sound { info = some info }) (rx_loop lib sound.chunks (rx_init l))
              (rx_loop-Good lib sane sound.chunks (rx_init l) start))))

  -- A recording is decoded to its end, whatever the modems find in it: no copy leaves an array, the arrays
  -- keep their sizes, no chunk that goes to the T.4 receiver is longer than 256 bytes, that receiver is told
  -- to end a page only behind the beginning of one, and the result is -2, 0 or 1. The thread is in no page
  -- when it begins, and of the frames that SpanDSP
  -- hands over as good none has less than 4 bytes, or more than lie in its buffer, or a byte of more than 8 bits;
  -- bad frames may be any.
  pub decode_alaw-Fine :
      (sound : Sound) (l : Line) → Good l → l.t4_up ≡ false → Fine (decode_alaw lib sound l)
  decode_alaw-Fine sound l g down = opened-Fine sound sound.info l g down
