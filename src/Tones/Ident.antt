-- ===== src/Tones/Ident.antt =====
-- `decode_20digit_msg` in src/fax_decode.c: the identification in a fax frame, which is sent backwards.
use vpu.Common.{
  ℕ, zero, suc, ◌+◌, ◌-◌, ◌≡◌, ◌≢◌, ◌≤◌, ◌<◌, refl, ap, ◌∙◌, Option, none, some, List, [], ◌∷◌,
  ◌++◌, ltb, ◌==◌, if◌then◌else◌, drop, length, byte_at, true, false, replicate, length-append,
  arith, append_assoc, eq→==, ne→not_==, le→not_ltb,
}
use mathlib.Core.List.{reverse, reverse-cons}

-- `while (p > 1 && pkt[p - 1] == ' ') p--`
unfoldable pub strip : List ℕ → ℕ → ℕ
strip pkt zero = zero
strip pkt (suc zero) = suc zero
strip pkt (suc (suc q)) = if byte_at pkt (suc q) == 32 then strip pkt (suc q) else suc (suc q)

-- `while (p > 1) msg[k++] = pkt[--p]`
unfoldable pub read_back : List ℕ → ℕ → List ℕ
read_back pkt zero = []
read_back pkt (suc zero) = []
read_back pkt (suc (suc q)) = byte_at pkt (suc q) ∷ read_back pkt (suc q)

-- The text that is printed for the frame `fr` of length `len`, or none if it is too long for `msg`;
-- `max` is T30_MAX_IDENT_LEN.
unfoldable pub decode_20digit_msg : ℕ → List ℕ → ℕ → Option (List ℕ)
decode_20digit_msg max fr len =
    if ltb (max + 3) len
    then none
    else (let pkt = drop 2 fr in some (read_back pkt (strip pkt (len - 2))))

byte_at-append : (xs ys : List ℕ) (i : ℕ) → byte_at (xs ++ ys) (length xs + i) ≡ byte_at ys i
byte_at-append [] ys i = ap (byte_at ys) (omega arith)
byte_at-append (x ∷ xs) ys i =
    let e : suc (length xs) + i ≡ suc (length xs + i) = omega arith in
    ap (byte_at (x ∷ (xs ++ ys))) e ∙ byte_at-append xs ys i

byte_at-replicate : (n a i : ℕ) → i < n → byte_at (replicate n a) i ≡ a
byte_at-replicate zero a i h = absurd (omega arith)
byte_at-replicate (suc n) a zero h = refl
byte_at-replicate (suc n) a (suc i) h = byte_at-replicate n a i (omega arith)

length-reverse : (s : List ℕ) → length (reverse s) ≡ length s
length-reverse [] = refl
length-reverse (c ∷ s) =
    ap length (reverse-cons c s)
    ∙ omega (arith, length-append (reverse s) (c ∷ []), length-reverse s)

-- The spaces behind `w` are stripped.
strip_spaces :
    (t : ℕ) (w : List ℕ) (m n : ℕ)
    → n ≤ m
    → strip (t ∷ (w ++ replicate m 32)) (suc (length w + n))
      ≡ strip (t ∷ (w ++ replicate m 32)) (suc (length w))
unfolding strip
strip_spaces t w m zero h = ap (λ k. strip (t ∷ (w ++ replicate m 32)) (suc k)) (omega arith)
strip_spaces t w m (suc n) h =
    let pkt : List ℕ = t ∷ (w ++ replicate m 32) in
    let e : suc (length w + suc n) ≡ suc (suc (length w + n)) = omega arith in
    let b : (byte_at (w ++ replicate m 32) (length w + n) == 32) ≡ true =
      eq→== _ _ (byte_at-append w (replicate m 32) n ∙ byte_at-replicate m 32 n (omega arith)) in
    ap (strip pkt) e
    ∙ ap (λ c. if c then strip pkt (suc (length w + n)) else suc (suc (length w + n))) b
    ∙ strip_spaces t w m n (omega arith)

-- A text does not begin with a space.
abbrev pub Unpadded : List ℕ → Type 0
Unpadded [] = Unit
Unpadded (c ∷ s) = c ≢ 32

-- the message that carries `s`: backwards, with the spaces that fill it up behind
abbrev pub message : List ℕ → ℕ → List ℕ
message s n = reverse s ++ replicate n 32

message-cons : (c : ℕ) (s rest : List ℕ) → reverse (c ∷ s) ++ rest ≡ reverse s ++ (c ∷ rest)
message-cons c s rest =
    ap (λ l. l ++ rest) (reverse-cons c s) ∙ append_assoc (reverse s) (c ∷ []) rest

-- the character that `s` ends the backward text with
byte_at-reverse : (c : ℕ) (s rest : List ℕ) → byte_at (reverse (c ∷ s) ++ rest) (length s) ≡ c
byte_at-reverse c s rest =
    let e : length s ≡ length (reverse s) + 0 = omega (arith, length-reverse s) in
    ap (λ l. byte_at l (length s)) (message-cons c s rest)
    ∙ ap (byte_at (reverse s ++ (c ∷ rest))) e
    ∙ byte_at-append (reverse s) (c ∷ rest) 0

strip_text :
    (t : ℕ) (s : List ℕ) (rest : List ℕ)
    → Unpadded s
    → strip (t ∷ (reverse s ++ rest)) (suc (length s)) ≡ suc (length s)
unfolding strip
strip_text t [] rest h = refl
strip_text t (c ∷ s) rest h =
    let b : (byte_at (reverse (c ∷ s) ++ rest) (length s) == 32) ≡ false =
      ap (λ v. v == 32) (byte_at-reverse c s rest) ∙ ne→not_== c 32 h in
    ap
      (λ v.
        if v then strip (t ∷ (reverse (c ∷ s) ++ rest)) (suc (length s)) else suc (suc (length s)))
      b

read_back-reverse :
    (t : ℕ) (s rest : List ℕ) → read_back (t ∷ (reverse s ++ rest)) (suc (length s)) ≡ s
unfolding read_back
read_back-reverse t [] rest = refl
read_back-reverse t (c ∷ s) rest =
    ap (λ v. v ∷ read_back (t ∷ (reverse (c ∷ s) ++ rest)) (suc (length s)))
      (byte_at-reverse c s rest)
    ∙ ap (λ l. c ∷ l)
        (ap (λ l. read_back (t ∷ l) (suc (length s))) (message-cons c s rest)
          ∙ read_back-reverse t s (c ∷ rest))

-- What a fax machine sends is read back: an identification that does not begin with a space, sent
-- backwards and filled up with spaces to at most T30_MAX_IDENT_LEN characters, is decoded as it was.
pub decode_20digit_msg-message :
    (max a b t n : ℕ) (s : List ℕ)
    → Unpadded s
    → length s + n ≤ max
    → decode_20digit_msg max (a ∷ b ∷ t ∷ message s n) (length s + n + 3) ≡ some s
unfolding decode_20digit_msg
decode_20digit_msg-message max a b t n s u h =
    let pkt : List ℕ = t ∷ message s n in
    let p : length s + n + 3 - 2 ≡ suc (length (reverse s) + n) = omega (arith, length-reverse s) in
    let q : suc (length (reverse s)) ≡ suc (length s) = ap suc (length-reverse s) in
    let stripped : strip pkt (length s + n + 3 - 2) ≡ suc (length s) =
      ap (strip pkt) p
      ∙ strip_spaces t (reverse s) n n (omega arith)
      ∙ ap (strip pkt) q
      ∙ strip_text t s (replicate n 32) u in
    rw (le→not_ltb (max + 3) (length s + n + 3) (omega arith))
      (ap (λ k. some (read_back pkt k)) stripped ∙ ap some (read_back-reverse t s (replicate n 32)))
