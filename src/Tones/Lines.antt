-- ===== src/Tones/Lines.antt =====
-- The state of a fax thread in the decoder of src/fax_decode.c: its arrays keep their sizes, and pages are
-- begun before they are ended, as long as SpanDSP hands over no frame of less than 4 bytes.
use vpu.Common.{
  ℕ, zero, suc, ◌≤◌, ◌<◌, ◌≡◌, Bool, true, false, Option, none, some, List, [], ◌∷◌, length, get_or,
  set, replicate, arith,
}
use vpu.Tones.{SpanDsp, Line, Frame, status, frame, T4Call, start_page, end_page, put_chunk}
use vpu.Tones.Recording.{◌>>=◌}

module _ {ℓ κ} {A : Type ℓ} where
  abbrev pub All : (A → Type κ) → List A → Type κ
  All P [] = Unit
  All P (x ∷ xs) = P x × All P xs

  pub All-set : (P : A → Type κ) (xs : List A) (i : ℕ) (v : A) → All P xs → P v → All P (set xs i v)
  All-set P [] i v h p = h
  All-set P (x ∷ xs) zero v h p = (p, h.1)
  All-set P (x ∷ xs) (suc i) v h p = (h.0, All-set P xs i v h.1 p)

  pub All-replicate : (P : A → Type κ) (n : ℕ) (v : A) → P v → All P (replicate n v)
  All-replicate P zero v p = tt
  All-replicate P (suc n) v p = (p, All-replicate P n v p)

  pub All-get_or :
      (P : A → Type κ) (xs : List A) (i : ℕ) (d : A) → All P xs → i < length xs → P (get_or xs i d)
  All-get_or P [] i d h l = absurd (omega arith)
  All-get_or P (x ∷ xs) zero d h l = h.0
  All-get_or P (x ∷ xs) (suc i) d h l = All-get_or P xs i d h.1 (omega arith)

-- an entry of `ecm_len`
abbrev pub Len : Option ℕ → Type 0
Len none = Unit
Len (some n) = n ≤ 256

abbrev pub Row : List ℕ → Type 0
Row r = length r ≡ 260

-- The bounds of the arrays of a fax thread.
pub record IsLine (l : Line) : Type 0 where
  pub rows : length l.ecm_data ≡ 256
  pub lens : length l.ecm_len ≡ 256
  pub row : All Row l.ecm_data
  pub len : All Len l.ecm_len
  pub flag : l.fax_flag ≤ 1

-- A frame that is handed over as good has 4 bytes at least, all of them in its buffer of bytes.
abbrev pub FrameOk : Frame → Type 0
FrameOk status = Unit
FrameOk (frame msg len good) = good ≡ true → (4 ≤ len) × (len ≤ length msg) × All (λ b. b < 256) msg

pub record Sane (lib : SpanDsp) : Type 0 where
  pub good : (bits : List ℕ) (b : ℕ) → All FrameOk (lib.frames bits b)

-- What the calls of the T.4 receiver say: whether a page is begun, and that no page is ended that is not,
-- and no chunk is empty or longer than an ECM frame.
abbrev pub is_begun : List T4Call → Bool
is_begun [] = false
is_begun (start_page ∷ cs) = true
is_begun (end_page ∷ cs) = false
is_begun (_ ∷ cs) = is_begun cs

abbrev pub Paged : List T4Call → Type 0
Paged [] = Unit
Paged (end_page ∷ cs) = (is_begun cs ≡ true) × Paged cs
Paged (put_chunk bs ∷ cs) = (0 < length bs) × (length bs ≤ 256) × Paged cs
Paged (_ ∷ cs) = Paged cs

pub record InPage (l : Line) : Type 0 where
  pub up : is_begun l.t4_rx_state ≡ l.t4_up
  pub paged : Paged l.t4_rx_state

-- Results that exist, with what holds of them.
abbrev pub Gives : Option Line → (Line → Type 0) → Type 0
Gives none P = ⊥
Gives (some l) P = P l

abbrev pub Good : Line → Type 0
Good l = IsLine l × InPage l

pub Gives-map :
    (P Q : Line → Type 0) (r : Option Line) → Gives r P → ((l : Line) → P l → Q l) → Gives r Q
Gives-map P Q none g f = g
Gives-map P Q (some l) g f = f l g

-- What a step gives, the next one can start from.
module _ (P Q : Line → Type 0) where
  pub bind-Gives :
      (r : Option Line) (f : Line → Option Line)
      → Gives r P
      → ((l : Line) → P l → Gives (f l) Q)
      → Gives (elim r [ none ↦ none | some l ↦ f l ]) Q
  bind-Gives none f g next = g
  bind-Gives (some l) f g next = next l g

-- The same behind the operator of Recording.
pub then-Gives :
    (P : Line → Type 0) (r : Option Line) (f : Line → Option Line)
    → Gives r P
    → ((l : Line) → P l → Gives (f l) P)
    → Gives (r >>= f) P
then-Gives P none f g next = g
then-Gives P (some l) f g next = next l g
