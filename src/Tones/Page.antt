-- ===== src/Tones/Page.antt =====
-- A page in error correcting mode in src/fax_decode.c: the frames that `hdlc_accept` stores between
-- `t4_begin` and `t4_end`.
use vpu.Common.{
  ℕ, zero, suc, ◌+◌, ◌-◌, ◌*◌, ◌/◌, ◌≤◌, ◌<◌, ◌≡◌, refl, ap, ◌∙◌, sym, true, Option, none, some,
  List, [], ◌∷◌, ◌++◌, ltb, ◌==◌, if◌then◌else◌, take, drop, length, get_or, set, replicate, arith,
  le→leb, le→not_ltb, take_of_length_le, take-append_self, length-set, length-replicate, eq→==,
  if_splits,
}
use vpu.Tones.{SpanDsp, Line, Frame, frame, T4Call, put_chunk, end_page}
use vpu.Tones.Frames.{store_fcd, accept_type, hdlc_accept, accept_all}
use vpu.Tones.Signals.{t4_begin, chunk_of, put_chunks, page_calls, t4_end}
use vpu.Tones.Lines.{All, Gives, Gives-map, bind-Gives}
use mathlib.Core.Path.{subst}

-- A frame of image data, as the other side sends it.
pub record EcmFrame : Type 0 where
  pub no : ℕ
  pub bytes : List ℕ

abbrev pub FrameFits : EcmFrame → Type 0
FrameFits f = (f.no < 256) × (0 < length f.bytes) × (length f.bytes ≤ 256)

-- the frame that SpanDSP hands over for it
abbrev pub sent : SpanDsp → EcmFrame → Frame
sent lib f = frame (255 ∷ 3 ∷ lib.t4_fcd ∷ f.no ∷ f.bytes) (length f.bytes + 4) true

abbrev pub sent_all : SpanDsp → List EcmFrame → List Frame
sent_all lib [] = []
sent_all lib (f ∷ fs) = sent lib f ∷ sent_all lib fs

-- The bytes of the last frame with the number `i`.
pub last_frame : List EcmFrame → ℕ → Option (List ℕ)
last_frame [] i = none
last_frame (f ∷ fs) i = elim (last_frame fs i) [
  | some bs ↦ some bs
  | none ↦ if f.no == i then some f.bytes else none
]

abbrev pub chunk_call : Option (List ℕ) → List T4Call
chunk_call none = []
chunk_call (some bs) = put_chunk bs ∷ []

-- The chunks for the `n` numbers from `i` on, in their order; the last call comes first.
pub chunks_from : (ℕ → Option (List ℕ)) → ℕ → ℕ → List T4Call → List T4Call
chunks_from spec i zero calls = calls
chunks_from spec i (suc n) calls = chunks_from spec (i + 1) n (chunk_call (spec i) ++ calls)

-- What an entry of the two arrays holds of the frame that is wanted there.
abbrev Entry : Option (List ℕ) → Option ℕ → List ℕ → Type 0
Entry none n row = n ≡ none
Entry (some bs) n row = (n ≡ some (length bs)) × (take (length bs) row ≡ bs) × (0 < length bs)

abbrev Matches : (ℕ → Option (List ℕ)) → ℕ → List (Option ℕ) → List (List ℕ) → Type 0
Matches spec i [] rows = Unit
Matches spec i (n ∷ ns) [] = ⊥
Matches spec i (n ∷ ns) (row ∷ rows) = Entry (spec i) n row × Matches spec (i + 1) ns rows

Entry-chunk :
    (o : Option (List ℕ)) (n : Option ℕ) (row : List ℕ)
    → Entry o n row
    → chunk_of n row ≡ chunk_call o
Entry-chunk none n row e = ap (λ m. chunk_of m row) e
Entry-chunk (some bs) n row (e, t, pos) =
    ap (λ m. chunk_of m row) e
    ∙ rw (let h : ltb 0 (length bs) ≡ true = ground arith in h) (ap (λ b. put_chunk b ∷ []) t)

put_chunks-Matches :
    (spec : ℕ → Option (List ℕ)) (i : ℕ) (ns : List (Option ℕ)) (rows : List (List ℕ))
    (calls : List T4Call)
    → Matches spec i ns rows
    → put_chunks ns rows calls ≡ chunks_from spec i (length ns) calls
unfolding put_chunks chunks_from
put_chunks-Matches spec i [] rows calls m = refl
put_chunks-Matches spec i (n ∷ ns) [] calls m = absurd m
put_chunks-Matches spec i (n ∷ ns) (row ∷ rows) calls (e, m) =
    ap (λ c. put_chunks ns rows (c ++ calls)) (Entry-chunk (spec i) n row e)
    ∙ put_chunks-Matches spec (i + 1) ns rows (chunk_call (spec i) ++ calls) m

Matches-ext :
    (s t : ℕ → Option (List ℕ)) (i : ℕ) (ns : List (Option ℕ)) (rows : List (List ℕ))
    → ((j : ℕ) → i ≤ j → s j ≡ t j)
    → Matches s i ns rows
    → Matches t i ns rows
Matches-ext s t i [] rows e m = tt
Matches-ext s t i (n ∷ ns) [] e m = m
Matches-ext s t i (n ∷ ns) (row ∷ rows) e (h, m) = (
  subst (λ o. Entry o n row) (e i (omega arith)) h,
  Matches-ext s t (i + 1) ns rows (λ j l. e j (omega arith)) m,
)

-- the frames that are wanted, with one more
abbrev update : (ℕ → Option (List ℕ)) → ℕ → List ℕ → ℕ → Option (List ℕ)
update s k bs j = if k == j then some bs else s j

Matches-set :
    (s : ℕ → Option (List ℕ)) (i k m : ℕ) (bs row' : List ℕ) (ns : List (Option ℕ))
    (rows : List (List ℕ))
    → m ≡ i + k
    → take (length bs) row' ≡ bs
    → 0 < length bs
    → Matches s i ns rows
    → Matches (update s m bs) i (set ns k (some (length bs))) (set rows k row')
Matches-set s i k m bs row' [] rows e t pos h = tt
Matches-set s i k m bs row' (n ∷ ns) [] e t pos h = absurd h
Matches-set s i zero m bs row' (n ∷ ns) (row ∷ rows) e t pos (h, hs) = (
  rw (eq→== m i (omega arith)) (refl, t, pos),
  Matches-ext s (update s m bs) (i + 1) ns rows (λ j l. ground arith) hs,
)
Matches-set s i (suc k) m bs row' (n ∷ ns) (row ∷ rows) e t pos (h, hs) =
    let other : s i ≡ update s m bs i = ground arith in
    (
      subst (λ o. Entry o n row) other h,
      Matches-set s (i + 1) k m bs row' ns rows (omega arith) t pos hs,
    )

-- the frames that are wanted behind some more
abbrev after : List EcmFrame → (ℕ → Option (List ℕ)) → ℕ → Option (List ℕ)
after [] s = s
after (f ∷ fs) s = after fs (update s f.no f.bytes)

or_else : Option (List ℕ) → Option (List ℕ) → Option (List ℕ)
or_else o d = elim o [ some bs ↦ some bs | none ↦ d ]

after-last :
    (fs : List EcmFrame) (s : ℕ → Option (List ℕ)) (j : ℕ)
    → after fs s j ≡ or_else (last_frame fs j) (s j)
unfolding last_frame or_else
after-last [] s j = refl
after-last (f ∷ fs) s j = after-last fs (update s f.no f.bytes) j ∙ joined (last_frame fs j)
  where
    joined :
        (o : Option (List ℕ))
        → or_else o (update s f.no f.bytes j)
          ≡ or_else
              (elim o [ some bs ↦ some bs | none ↦ if f.no == j then some f.bytes else none ])
              (s j)
    joined (some bs) = refl
    joined none = ground arith

-- no frame is there yet
Matches-none :
    (i n : ℕ) (rows : List (List ℕ))
    → n ≤ length rows
    → Matches (λ _. none) i (replicate n none) rows
Matches-none i zero rows h = tt
Matches-none i (suc n) [] h = absurd (omega arith)
Matches-none i (suc n) (row ∷ rows) h = (refl, Matches-none (i + 1) n rows (omega arith))

-- What a page has so far, and what it does not change.
record Gathered (s : ℕ → Option (List ℕ)) (calls : List T4Call) (l : Line) : Type 0 where
  matches : Matches s 0 l.ecm_len l.ecm_data
  size : length l.ecm_len ≡ 256
  mode : l.error_correcting_mode ≡ true
  up : l.t4_up ≡ true
  before : l.t4_rx_state ≡ calls

-- the row behind the copy of `bs`
abbrev copy : List ℕ → List ℕ → List ℕ
copy bs old = let new = take (length bs + 4 - 4) bs in new ++ drop (length new) old

copied : (bs old : List ℕ) → take (length bs) (copy bs old) ≡ bs
copied bs old =
    let n : length bs + 4 - 4 ≡ length bs = omega arith in
    let t : take (length bs + 4 - 4) bs ≡ bs =
      ap (λ k. take k bs) n ∙ take_of_length_le (length bs) bs (omega arith) in
    ap (λ v. take (length bs) (v ++ drop (length v) old)) t
    ∙ take-append_self bs (drop (length bs) old)

module _ (lib : SpanDsp) (even : lib.t4_fcd / 2 * 2 ≡ lib.t4_fcd) (calls : List T4Call) where
  accept-Gathered :
      (f : EcmFrame) (s : ℕ → Option (List ℕ)) (l : Line)
      → FrameFits f
      → Gathered s calls l
      → Gives (hdlc_accept lib (sent lib f) l) (Gathered (update s f.no f.bytes) calls)
  unfolding hdlc_accept accept_type store_fcd
  accept-Gathered f s l (small, pos, fits) g =
      let n : some (length f.bytes + 4 - 4) ≡ some (length f.bytes) = ap some (omega arith) in
      rw
        (
          eq→== (lib.t4_fcd / 2 * 2) lib.t4_fcd even,
          le→leb (length f.bytes + 4) 260 (omega arith),
          le→not_ltb (length f.bytes + 4) 4 (omega arith),
          le→not_ltb (suc (suc (suc (suc (length f.bytes))))) (length f.bytes + 4) (omega arith),
        )
        (record {
          matches =
              subst
                (λ o.
                  Matches (update s f.no f.bytes) 0 (set l.ecm_len f.no o)
                    (set l.ecm_data f.no (copy f.bytes (get_or l.ecm_data f.no []))))
                (sym n)
                (Matches-set s 0 f.no f.no f.bytes _ l.ecm_len l.ecm_data (omega arith)
                  (copied f.bytes (get_or l.ecm_data f.no [])) pos g.matches);
          size = length-set l.ecm_len f.no _ ∙ g.size;
          mode = g.mode;
          up = g.up;
          before = g.before;
        })

  accept_all-Gathered :
      (fs : List EcmFrame) (s : ℕ → Option (List ℕ)) (l : Line)
      → All FrameFits fs
      → Gathered s calls l
      → Gives (accept_all lib (sent_all lib fs) l) (Gathered (after fs s) calls)
  unfolding accept_all
  accept_all-Gathered [] s l h g = g
  accept_all-Gathered (f ∷ fs) s l (h, hs) g =
      bind-Gives (Gathered (update s f.no f.bytes) calls)
        (Gathered (after fs (update s f.no f.bytes)) calls) (hdlc_accept lib (sent lib f) l)
        (accept_all lib (sent_all lib fs)) (accept-Gathered f s l h g)
        (λ l' g'. accept_all-Gathered fs (update s f.no f.bytes) l' hs g')

-- behind the end of the page
t4_end-Gathered :
    (s : ℕ → Option (List ℕ)) (calls : List T4Call) (l : Line)
    → Gathered s calls l
    → (t4_end l).t4_rx_state ≡ end_page ∷ chunks_from s 0 256 calls
unfolding t4_end page_calls
t4_end-Gathered s calls l g =
    if_splits (λ (l' : Line). l'.t4_rx_state ≡ end_page ∷ chunks_from s 0 256 calls) l.t4_up
      (λ _.
        ap (λ c. end_page ∷ c)
          (if_splits (λ c. c ≡ chunks_from s 0 256 calls) l.error_correcting_mode
            (λ _.
              put_chunks-Matches s 0 l.ecm_len l.ecm_data l.t4_rx_state g.matches
              ∙ ap (λ n. chunks_from s 0 n l.t4_rx_state) g.size
              ∙ ap (chunks_from s 0 256) g.before)
            (λ off. absurd (ground (arith, g.mode)))))
      (λ down. absurd (ground (arith, g.up)))

chunks_from-ext :
    (s t : ℕ → Option (List ℕ)) (i n : ℕ) (calls : List T4Call)
    → ((j : ℕ) → s j ≡ t j)
    → chunks_from s i n calls ≡ chunks_from t i n calls
unfolding chunks_from
chunks_from-ext s t i zero calls e = refl
chunks_from-ext s t i (suc n) calls e =
    ap (λ o. chunks_from s (i + 1) n (chunk_call o ++ calls)) (e i)
    ∙ chunks_from-ext s t (i + 1) n (chunk_call (t i) ++ calls) e

last_only : (o : Option (List ℕ)) → or_else o none ≡ o
unfolding or_else
last_only none = refl
last_only (some bs) = refl

t4_begin-Gathered :
    (l : Line)
    → l.error_correcting_mode ≡ true
    → length l.ecm_data ≡ 256
    → Gathered (λ _. none) (t4_begin l).t4_rx_state (t4_begin l)
unfolding t4_begin
t4_begin-Gathered l ecm rows = record {
  matches = Matches-none 0 256 l.ecm_data (omega (arith, rows));
  size = length-replicate {A = Option ℕ} 256 none;
  mode = ecm;
  up = refl;
  before = refl;
}

-- A page in error correcting mode is put together by the numbers of its frames: whatever the order in which
-- the frames come between the begin and the end of the page, and however often one is sent again, the
-- T.4 receiver gets the frames 0 to 255 in that order, of each number the last one, and then the end of the
-- page. Each frame has 1 to 256 bytes, and T4_FCD is even.
pub page-in_order :
    (lib : SpanDsp) (fs : List EcmFrame) (l : Line)
    → lib.t4_fcd / 2 * 2 ≡ lib.t4_fcd
    → l.error_correcting_mode ≡ true
    → length l.ecm_data ≡ 256
    → All FrameFits fs
    → Gives (accept_all lib (sent_all lib fs) (t4_begin l)) (λ l'.
      (t4_end l').t4_rx_state
      ≡ end_page ∷ chunks_from (last_frame fs) 0 256 (t4_begin l).t4_rx_state)
page-in_order lib fs l even ecm rows fits =
    let calls = (t4_begin l).t4_rx_state in
    Gives-map (Gathered (after fs (λ _. none)) calls) _
      (accept_all lib (sent_all lib fs) (t4_begin l))
      (accept_all-Gathered lib even calls fs (λ _. none) (t4_begin l) fits
        (t4_begin-Gathered l ecm rows))
      (λ l' g.
        t4_end-Gathered (after fs (λ _. none)) calls l' g
        ∙ ap (λ c. end_page ∷ c)
            (chunks_from-ext (after fs (λ _. none)) (last_frame fs) 0 256 calls
              (λ j. after-last fs (λ _. none) j ∙ last_only (last_frame fs j))))
