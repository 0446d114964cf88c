-- ===== src/Tones/Stale.antt =====
-- What the decoder of src/fax_decode.c keeps from one recording for the next: `fast_trained` is cleared by a
-- loss of the carrier only, and not at the beginning of a recording.
use vpu.Common.{
  ℕ, ◌≡◌, refl, Bool, true, false, not, Option, none, some, List, [], ◌∷◌, ◌==◌, if◌then◌else◌,
  if_keeps, if_splits, arith, ap, ◌∙◌,
}
use vpu.Tones.{
  SpanDsp, Line, Modem, v27ter, v29, v17, Signal, bit, trained, carrier_down, other_status, put_bit,
  release,
}
use vpu.Tones.Signals.{call, t4_end, t4_rx_put_bit, v21_put_bit, fast_put_bit}
use vpu.Tones.Recording.{
  Chunk, SfInfo, Sound, Result, v21_rx, fast_rx, rx_chunk, rx_loop, end_alaw, rx_init, decode_alaw,
  decode_mem, decode_node, is_fax, reset_flag,
}
use vpu.Tones.Lines.{All, Gives, bind-Gives, then-Gives}
use vpu.Tones.Frames.{hdlc_rx_put_bit}

-- A signal that is neither the end of a training nor the loss of a carrier.
abbrev pub IsQuiet : Signal → Type 0
IsQuiet (bit b) = Unit
IsQuiet other_status = Unit
IsQuiet _ = ⊥

-- The fast modems find no training, and lose no carrier, in a chunk; the V.21 modem may find anything.
pub record QuietChunk (c : Chunk) : Type 0 where
  pub v17_quiet : All IsQuiet c.v17_signals
  pub v29_quiet : All IsQuiet c.v29_signals
  pub v27ter_quiet : All IsQuiet c.v27ter_signals

-- A recording in which no fast modem trains, and of which no picture comes.
pub record QuietSound (s : Sound) : Type 0 where
  pub quiet : All QuietChunk s.chunks
  pub no_picture : s.picture ≡ false

-- The state behind a recording that ends while `m` is receiving, with no error correction.
pub record Deaf (m : Modem) (l : Line) : Type 0 where
  pub stays : l.fast_trained ≡ some m
  pub mode : l.error_correcting_mode ≡ false
  pub flag : l.fax_flag ≡ 0

module _ (lib : SpanDsp) (m : Modem) where
  t4_end-Deaf : (l : Line) → Deaf m l → Deaf m (t4_end l)
  unfolding t4_end
  t4_end-Deaf l d =
      if_keeps (Deaf m) l.t4_up (record { stays = d.stays; mode = d.mode; flag = d.flag }) d

  t4_rx_put_bit-Deaf : (b : ℕ) (l : Line) → Deaf m l → Deaf m (t4_rx_put_bit lib b l)
  unfolding t4_rx_put_bit
  t4_rx_put_bit-Deaf b l d =
      let d' : Deaf m (call (put_bit b) l) = record {
        stays = d.stays;
        mode = d.mode;
        flag = d.flag;
      } in
      if_keeps (Deaf m) (lib.page_ends l.t4_rx_state b) (t4_end-Deaf (call (put_bit b) l) d') d'

  v21_put_bit-Deaf : (s : Signal) (l : Line) → Deaf m l → Gives (v21_put_bit lib s l) (Deaf m)
  unfolding v21_put_bit
  v21_put_bit-Deaf trained l d = d
  v21_put_bit-Deaf carrier_down l d = d
  v21_put_bit-Deaf other_status l d = d
  v21_put_bit-Deaf (bit b) l d = put l.fast_trained d.stays
    where
      put :
          (o : Option Modem)
          → o ≡ some m
          → Gives (elim o [ none ↦ hdlc_rx_put_bit lib b l | some m' ↦ some l ]) (Deaf m)
      put none e = absurd (ground arith)
      put (some m') e = d

  fast_put_bit-Deaf :
      (k : Modem) (s : Signal) (l : Line)
      → IsQuiet s
      → Deaf m l
      → Gives (fast_put_bit lib k s l) (Deaf m)
  unfolding fast_put_bit
  fast_put_bit-Deaf k trained l q d = absurd q
  fast_put_bit-Deaf k carrier_down l q d = absurd q
  fast_put_bit-Deaf k other_status l q d = d
  fast_put_bit-Deaf k (bit b) l q d = put l.error_correcting_mode d.mode
    where
      put :
          (ecm : Bool)
          → ecm ≡ false
          → Gives (if ecm then hdlc_rx_put_bit lib b l else some (t4_rx_put_bit lib b l)) (Deaf m)
      put true e = absurd (ground arith)
      put false e = t4_rx_put_bit-Deaf b l d

  v21_rx-Deaf : (ss : List Signal) (l : Line) → Deaf m l → Gives (v21_rx lib ss l) (Deaf m)
  unfolding v21_rx
  v21_rx-Deaf [] l d = d
  v21_rx-Deaf (s ∷ ss) l d =
      bind-Gives (Deaf m) (Deaf m) _ (v21_rx lib ss) (v21_put_bit-Deaf s l d) (v21_rx-Deaf ss)

  fast_rx-Deaf :
      (k : Modem) (ss : List Signal) (l : Line)
      → All IsQuiet ss
      → Deaf m l
      → Gives (fast_rx lib k ss l) (Deaf m)
  unfolding fast_rx
  fast_rx-Deaf k [] l q d = d
  fast_rx-Deaf k (s ∷ ss) l (q, qs) d =
      bind-Gives (Deaf m) (Deaf m) _ (fast_rx lib k ss) (fast_put_bit-Deaf k s l q d)
        (λ l' d'. fast_rx-Deaf k ss l' qs d')

  rx_chunk-Deaf :
      (c : Chunk) (l : Line) → QuietChunk c → Deaf m l → Gives (rx_chunk lib c l) (Deaf m)
  unfolding rx_chunk
  rx_chunk-Deaf c l q d = then-Gives (Deaf m) _ _ (v21_rx-Deaf c.v21_signals l d) (λ l1 d1.
      then-Gives (Deaf m) _ _ (fast_rx-Deaf v17 c.v17_signals l1 q.v17_quiet d1) (λ l2 d2.
        then-Gives (Deaf m) _ _ (fast_rx-Deaf v29 c.v29_signals l2 q.v29_quiet d2)
          (λ l3 d3. fast_rx-Deaf v27ter c.v27ter_signals l3 q.v27ter_quiet d3)))

  rx_loop-Deaf :
      (cs : List Chunk) (l : Line)
      → All QuietChunk cs
      → Deaf m l
      → Gives (rx_loop lib cs l) (Deaf m)
  unfolding rx_loop
  rx_loop-Deaf [] l q d = d
  rx_loop-Deaf (c ∷ cs) l (q, qs) d =
      then-Gives (Deaf m) _ (rx_loop lib cs) (rx_chunk-Deaf c l q d)
        (λ l' d'. rx_loop-Deaf cs l' qs d')

-- A recording is decoded, and is no fax; the thread is as before.
abbrev Missed : Modem → Option Result → Type 0
Missed m none = ⊥
Missed m (some r) = (is_fax r.value ≡ false) × Deaf m r.line

end_alaw-Missed :
    (m : Modem) (sound : Sound) (l : Line)
    → sound.picture ≡ false
    → Deaf m l
    → Missed m (some (end_alaw sound l))
unfolding end_alaw
end_alaw-Missed m sound l none_there d =
    let d' : Deaf m (call release l) = record { stays = d.stays; mode = d.mode; flag = d.flag } in
    let value : is_fax (if sound.picture then some 1 else some l.fax_flag) ≡ false =
      ap (λ b. is_fax (if b then some 1 else some l.fax_flag)) none_there
      ∙ ap (λ v. v == 1) d.flag in
    if_keeps (λ r. Missed m (some r)) sound.closed (value, d') (refl, d')

module _ (lib : SpanDsp) (m : Modem) where
  opened-Missed :
      (sound : Sound) (info : Option SfInfo) (l : Line)
      → QuietSound sound
      → Deaf m l
      → Missed m (decode_alaw lib (record sound { info = info }) l)
  unfolding decode_alaw
  opened-Missed sound none l q d = (refl, d)
  opened-Missed sound (some info) l q d =
      if_keeps (Missed m) (not (info.samplerate == lib.sample_rate)) (refl, d)
        (if_keeps (Missed m) (not (info.channels == 1)) (refl, d)
          (if_keeps (Missed m) (not sound.t4_init)
            (refl, record { stays = d.stays; mode = d.mode; flag = d.flag })
            (ended (rx_loop lib sound.chunks (rx_init l)) (
              rx_loop-Deaf lib m sound.chunks (rx_init l) q.quiet
                (record { stays = d.stays; mode = d.mode; flag = d.flag })))))
    where
      ended :
          (r : Option Line)
          → Gives r (Deaf m)
          → Missed m (elim r [
            | none ↦ none
            | some l' ↦ some (end_alaw (record sound { info = some info }) l')
          ])
      ended none g = g
      ended (some l') g = end_alaw-Missed m (record sound { info = some info }) l' q.no_picture g

  decode_mem-Missed :
      (sound : Sound) (l : Line) → QuietSound sound → Deaf m l → Missed m (decode_mem lib sound l)
  unfolding decode_mem
  decode_mem-Missed sound l q d =
      if_keeps (Missed m) sound.made (opened-Missed sound sound.info l q d) (refl, d)

-- The answer for a node: no fax, and the thread is as before.
abbrev pub Ignored : Modem → Option (Bool × Line) → Type 0
Ignored m none = ⊥
Ignored m (some (fax, l)) = (fax ≡ false) × Deaf m l

second-Ignored :
    (m : Modem) (r : Option Result)
    → Missed m r
    → Ignored m (elim r [ none ↦ none | some r' ↦ some (reset_flag r') ])
second-Ignored m none g = g
second-Ignored m (some r) (no_fax, d) =
    (no_fax, record { stays = d.stays; mode = d.mode; flag = refl })

-- A fax thread whose last recording has ended while a fast modem was receiving, with no error correction, is deaf: it takes the next
-- node for no fax whatever V.21 frames there are in the voice of its call, unless a fast modem trains or loses
-- its carrier in it or a picture comes of it; and then it is as deaf as before, for the next node.
pub decode_node-Ignored :
    (lib : SpanDsp) (m : Modem) (up down : Sound) (l : Line)
    → Deaf m l
    → QuietSound up
    → QuietSound down
    → Ignored m (decode_node lib up down l)
unfolding decode_node
decode_node-Ignored lib m up down l d q_up q_down =
    first (decode_mem lib up l) (decode_mem-Missed lib m up l q_up d)
  where
    first :
        (r : Option Result)
        → Missed m r
        → Ignored m (elim r [
          | none ↦ none
          | some r' ↦
              if is_fax r'.value then some (reset_flag r') else elim (decode_mem lib down r'.line) [
                | none ↦ none
                | some r2 ↦ some (reset_flag r2)
              ]
        ])
    first none g = g
    first (some r) (no_fax, d') =
        if_splits (Ignored m) (is_fax r.value) (λ fax. absurd (ground arith))
          (λ _.
            second-Ignored m (decode_mem lib down r.line)
              (decode_mem-Missed lib m down r.line q_down d'))
