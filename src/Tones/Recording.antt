-- ===== src/Tones/Recording.antt =====
-- `decode_alaw`, and `decode_mem` behind the writing of its file, in src/fax_decode.c; and how `fax_pre`
-- calls it for both ways of a call. What the modems find in the sound is an input, as are the results of the
-- calls on files.
use vpu.Common.{ℕ, Bool, false, not, Option, none, some, List, [], ◌∷◌, ◌==◌, if◌then◌else◌}
use vpu.Tones.{SpanDsp, Line, Modem, v27ter, v29, v17, Signal, release}
use vpu.Tones.Signals.{call, v21_put_bit, fast_put_bit}

-- what the four receivers find in a chunk of 160 samples
pub record Chunk : Type 0 where
  pub v21_signals : List Signal
  pub v17_signals : List Signal
  pub v29_signals : List Signal
  pub v27ter_signals : List Signal

-- SF_INFO
pub record SfInfo : Type 0 where
  pub samplerate : ℕ
  pub channels : ℕ

-- What the system and the libraries answer: whether the file can be made, `sf_open`, whether `t4_rx_init` succeeds, the whole chunks of
-- the sound, whether `sf_close` succeeds, and whether the picture is there behind it.
pub record Sound : Type 0 where
  pub made : Bool
  pub info : Option SfInfo
  pub t4_init : Bool
  pub chunks : List Chunk
  pub closed : Bool
  pub picture : Bool

-- the C result, and what the call leaves open: the sound file, and the receivers that it has made
pub record Result : Type 0 where
  pub value : Option ℕ
  pub line : Line
  pub open_files : ℕ
  pub receivers : ℕ

-- -2, with the sound file open or not, and with so many receivers made
abbrev failed : ℕ → ℕ → Line → Result
failed files made l = record { value = none; line = l; open_files = files; receivers = made }

unfoldable pub v21_rx : SpanDsp → List Signal → Line → Option Line
v21_rx lib [] l = some l
v21_rx lib (s ∷ ss) l = elim (v21_put_bit lib s l) [ none ↦ none | some l' ↦ v21_rx lib ss l' ]

unfoldable pub fast_rx : SpanDsp → Modem → List Signal → Line → Option Line
fast_rx lib m [] l = some l
fast_rx lib m (s ∷ ss) l = elim (fast_put_bit lib m s l) [
  | none ↦ none
  | some l' ↦ fast_rx lib m ss l'
]

infixl 5 ◌>>=◌
abbrev pub ◌>>=◌ : Option Line → (Line → Option Line) → Option Line
none >>= f = none
some l >>= f = f l

-- one round of the loop
unfoldable pub rx_chunk : SpanDsp → Chunk → Line → Option Line
rx_chunk lib c l = do
  l1 ← v21_rx lib c.v21_signals l
  l2 ← fast_rx lib v17 c.v17_signals l1
  l3 ← fast_rx lib v29 c.v29_signals l2
  fast_rx lib v27ter c.v27ter_signals l3

unfoldable pub rx_loop : SpanDsp → List Chunk → Line → Option Line
rx_loop lib [] l = some l
rx_loop lib (c ∷ cs) l = rx_chunk lib c l >>= rx_loop lib cs

-- what follows the loop
unfoldable pub end_alaw : Sound → Line → Result
end_alaw sound l =
    if sound.closed
    then record {
      value = if sound.picture then some 1 else some l.fax_flag;
      line = call release l;
      open_files = 0;
      receivers = 4;
    }
    else failed 0 4 (call release l)

-- `hdlc_rx_init` and `t4_rx_init` start these two anew; no other variable is reset.
abbrev pub rx_init : Line → Line
rx_init l = record l { hdlcrx = []; t4_rx_state = [] }

-- `none` is a memcpy outside an object.
unfoldable pub decode_alaw : SpanDsp → Sound → Line → Option Result
decode_alaw lib sound l = elim (sound.info) [
  | none ↦ some (failed 0 0 l)
  | some info ↦
      let looped = rx_loop lib sound.chunks (rx_init l) in
      if not (info.samplerate == lib.sample_rate)
      then some (failed 1 0 l)
      else if not (info.channels == 1)
      then some (failed 1 0 l)
      else if not sound.t4_init
      then some (failed 1 4 (record l { hdlcrx = [] }))
      else elim looped [ none ↦ none | some l' ↦ some (end_alaw sound l') ]
]

-- `decode_mem`; 0 if the file cannot be made
unfoldable pub decode_mem : SpanDsp → Sound → Line → Option Result
decode_mem lib sound l =
    if sound.made
    then decode_alaw lib sound l
    else some (record { value = some 0; line = l; open_files = 0; receivers = 0 })

-- whether a result is 1
abbrev pub is_fax : Option ℕ → Bool
is_fax none = false
is_fax (some v) = v == 1

abbrev pub reset_flag : Result → Bool × Line
reset_flag r = (is_fax r.value, record r.line { fax_flag = 0 })

-- The two calls of `fax_pre`, for the voice of the one way and, if that was no fax, of the other; and the
-- reset of `fax_flag`: whether `callflag` is 1, and the state.
unfoldable pub decode_node : SpanDsp → Sound → Sound → Line → Option (Bool × Line)
decode_node lib up down l = elim (decode_mem lib up l) [
  | none ↦ none
  | some r ↦
      if is_fax r.value
      then some (reset_flag r)
      else elim (decode_mem lib down r.line) [ none ↦ none | some r' ↦ some (reset_flag r') ]
]
