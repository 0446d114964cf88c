-- ===== src/Cdr/Slice.antt =====
-- The records between two indices of the ring of src/send_cdr.c, going round at 65536.
use vpu.Common.{
  ℕ, zero, suc, ◌+◌, ◌-◌, ◌%◌, ◌≤◌, ◌<◌, ◌≡◌, refl, sym, ap, ◌∙◌, List, [], ◌∷◌, ◌++◌, length,
  get_or, set, take, drop, get_or-set_self, get_or-set_ne, arith,
}
use mathlib.Core.Path.{ap₂}
use vpu.Cdr.{Cdr, zero_cdr}

abbrev pub slice : List Cdr → ℕ → ℕ → List Cdr
slice buf i zero = []
slice buf i (suc n) = get_or buf i zero_cdr ∷ slice buf ((i + 1) % 65536) n

pub length-slice : (buf : List Cdr) (i n : ℕ) → length (slice buf i n) ≡ n
length-slice buf i zero = refl
length-slice buf i (suc n) = ap suc (length-slice buf ((i + 1) % 65536) n)

-- A slice is cut in two at any point.
pub slice-append :
    (buf : List Cdr) (i m n : ℕ)
    → i < 65536
    → slice buf i (m + n) ≡ slice buf i m ++ slice buf ((i + m) % 65536) n
slice-append buf i zero n h =
    let e : i ≡ (i + 0) % 65536 = omega arith in
    let e' : 0 + n ≡ n = omega arith in ap (slice buf i) e' ∙ ap (λ j. slice buf j n) e
slice-append buf i (suc m) n h =
    let e : suc m + n ≡ suc (m + n) = omega arith in
    let e' : ((i + 1) % 65536 + m) % 65536 ≡ (i + suc m) % 65536 = omega arith in
    ap (slice buf i) e
    ∙ ap (λ l. get_or buf i zero_cdr ∷ l)
        (slice-append buf ((i + 1) % 65536) m n (omega arith)
          ∙ ap (λ j. slice buf ((i + 1) % 65536) m ++ slice buf j n) e')

-- A write outside a slice leaves it as it was.
pub slice-set_outside :
    (buf : List Cdr) (x : Cdr) (i n j : ℕ)
    → i < 65536
    → j < 65536
    → n ≤ (j + 65536 - i) % 65536
    → slice (set buf j x) i n ≡ slice buf i n
slice-set_outside buf x i zero j hi hj h = refl
slice-set_outside buf x i (suc n) j hi hj h =
    ap₂ (λ y l. y ∷ l) (get_or-set_ne buf j i x zero_cdr (omega arith))
      (slice-set_outside buf x ((i + 1) % 65536) n j (omega arith) hj (omega arith))

-- A write just behind a slice extends it by one record.
pub slice-set_end :
    (buf : List Cdr) (x : Cdr) (i n j : ℕ)
    → length buf ≡ 65536
    → i < 65536
    → n < 65536
    → j ≡ (i + n) % 65536
    → slice (set buf j x) i (n + 1) ≡ slice buf i n ++ (x ∷ [])
slice-set_end buf x i n j len hi hn e =
    slice-append (set buf j x) i n 1 hi
    ∙ ap₂ (λ l r. l ++ r) (slice-set_outside buf x i n j hi (omega arith) (omega arith))
        (let at : (i + n) % 65536 ≡ j = sym e in
          ap (λ k. get_or (set buf j x) k zero_cdr ∷ []) at
          ∙ ap (λ y. y ∷ []) (get_or-set_self buf j x zero_cdr (omega arith)))

drop-cons :
    (buf : List Cdr) (i : ℕ)
    → i < length buf
    → drop i buf ≡ get_or buf i zero_cdr ∷ drop (suc i) buf
drop-cons [] i h = absurd (omega arith)
drop-cons (x ∷ buf) zero h = refl
drop-cons (x ∷ buf) (suc i) h = drop-cons buf i (omega arith)

-- A slice that does not go round is a piece of the array, as memcpy reads it.
pub take-drop-slice :
    (buf : List Cdr) (i n : ℕ)
    → length buf ≡ 65536
    → i + n ≤ 65536
    → take n (drop i buf) ≡ slice buf i n
take-drop-slice buf i zero len h = refl
take-drop-slice buf i (suc zero) len h = ap (take 1) (drop-cons buf i (omega arith))
take-drop-slice buf i (suc (suc n)) len h =
    let e : suc i ≡ (i + 1) % 65536 = omega arith in
    ap (take (suc (suc n))) (drop-cons buf i (omega arith))
    ∙ ap (λ l. get_or buf i zero_cdr ∷ l)
        (take-drop-slice buf (suc i) (suc n) len (omega arith) ∙ ap (λ j. slice buf j (suc n)) e)
