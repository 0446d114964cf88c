-- ===== src/Common/Lists.antt =====
-- C arrays as lists with native indices. A write out of bounds changes nothing.
use Prim.Native.Nat.{ℕ, zero, suc, ◌+◌, ◌-◌, ◌<◌, ◌≤◌, min}
use mathlib.Core.Path.{◌≡◌, refl, ap, ◌∙◌}
use mathlib.Core.Logic.{◌≢◌}
use mathlib.Core.List.{List, [], ◌∷◌, ◌++◌, map}
use mathlib.Core.Option.{Option, none, some}
use native.Mathlib.Omega.{arith}

module _ {ℓ} {A : Type ℓ} where
  abbrev pub length : List A → ℕ
  length [] = 0
  length (x ∷ xs) = suc (length xs)

  abbrev pub get_elem? : List A → ℕ → Option A
  get_elem? [] i = none
  get_elem? (x ∷ xs) zero = some x
  get_elem? (x ∷ xs) (suc i) = get_elem? xs i

  abbrev pub get_or : List A → ℕ → A → A
  get_or [] i d = d
  get_or (x ∷ xs) zero d = x
  get_or (x ∷ xs) (suc i) d = get_or xs i d

  abbrev pub set : List A → ℕ → A → List A
  set [] i v = []
  set (x ∷ xs) zero v = v ∷ xs
  set (x ∷ xs) (suc i) v = x ∷ set xs i v

  abbrev pub take : ℕ → List A → List A
  take zero xs = []
  take (suc n) [] = []
  take (suc n) (x ∷ xs) = x ∷ take n xs

  abbrev pub drop : ℕ → List A → List A
  drop zero xs = xs
  drop (suc n) [] = []
  drop (suc n) (x ∷ xs) = drop n xs

  abbrev pub replicate : ℕ → A → List A
  replicate zero a = []
  replicate (suc n) a = a ∷ replicate n a

  -- memcpy into an array at an offset; what would lie past the end is not written
  abbrev pub blit : List A → ℕ → List A → List A
  blit [] i ys = []
  blit (x ∷ xs) i [] = x ∷ xs
  blit (x ∷ xs) zero (y ∷ ys) = y ∷ blit xs zero ys
  blit (x ∷ xs) (suc i) (y ∷ ys) = x ∷ blit xs i (y ∷ ys)

  pub length-append : (xs ys : List A) → length (xs ++ ys) ≡ length xs + length ys
  length-append [] ys = omega arith
  length-append (x ∷ xs) ys = omega (arith, length-append xs ys)

  pub length-set : (xs : List A) (i : ℕ) (v : A) → length (set xs i v) ≡ length xs
  length-set [] i v = refl
  length-set (x ∷ xs) zero v = refl
  length-set (x ∷ xs) (suc i) v = ap suc (length-set xs i v)

  pub length-take : (n : ℕ) (xs : List A) → length (take n xs) ≡ min n (length xs)
  length-take zero xs = omega arith
  length-take (suc n) [] = omega arith
  length-take (suc n) (x ∷ xs) = omega (arith, length-take n xs)

  pub length-drop : (n : ℕ) (xs : List A) → length (drop n xs) ≡ length xs - n
  length-drop zero xs = omega arith
  length-drop (suc n) [] = omega arith
  length-drop (suc n) (x ∷ xs) = omega (arith, length-drop n xs)

  pub length-replicate : (n : ℕ) (a : A) → length (replicate n a) ≡ n
  length-replicate zero a = refl
  length-replicate (suc n) a = ap suc (length-replicate n a)

  pub length-blit : (xs : List A) (i : ℕ) (ys : List A) → length (blit xs i ys) ≡ length xs
  length-blit [] i ys = refl
  length-blit (x ∷ xs) i [] = refl
  length-blit (x ∷ xs) zero (y ∷ ys) = ap suc (length-blit xs zero ys)
  length-blit (x ∷ xs) (suc i) (y ∷ ys) = ap suc (length-blit xs i (y ∷ ys))

  pub take-append-drop : (n : ℕ) (xs : List A) → take n xs ++ drop n xs ≡ xs
  take-append-drop zero xs = refl
  take-append-drop (suc n) [] = refl
  take-append-drop (suc n) (x ∷ xs) = ap (λ l. x ∷ l) (take-append-drop n xs)

  pub take_of_length_le : (n : ℕ) (xs : List A) → length xs ≤ n → take n xs ≡ xs
  take_of_length_le zero [] h = refl
  take_of_length_le zero (x ∷ xs) h = absurd (omega arith)
  take_of_length_le (suc n) [] h = refl
  take_of_length_le (suc n) (x ∷ xs) h = ap (λ l. x ∷ l) (take_of_length_le n xs (omega arith))

  pub drop-add : (n m : ℕ) (xs : List A) → drop (n + m) xs ≡ drop m (drop n xs)
  drop-add zero m xs = ap (λ k. drop k xs) (omega arith)
  drop-add (suc n) zero [] = ap (λ k. drop k []) (let e : suc n + 0 ≡ suc n = omega arith in e)
  drop-add (suc n) (suc m) [] =
      let e : suc n + suc m ≡ suc (n + suc m) = omega arith in ap (λ k. drop k []) e
  drop-add (suc n) m (x ∷ xs) =
      let e : suc n + m ≡ suc (n + m) = omega arith in ap (λ k. drop k (x ∷ xs)) e ∙ drop-add n m xs

  pub take-append-take-drop :
      (n m : ℕ) (xs : List A) → take n xs ++ take m (drop n xs) ≡ take (n + m) xs
  take-append-take-drop zero m xs = ap (λ k. take k xs) (omega arith)
  take-append-take-drop (suc n) zero [] =
      ap (λ k. take k []) (let e : suc n ≡ suc n + 0 = omega arith in e)
  take-append-take-drop (suc n) (suc m) [] =
      let e : suc (n + suc m) ≡ suc n + suc m = omega arith in ap (λ k. take k []) e
  take-append-take-drop (suc n) m (x ∷ xs) =
      let e : suc (n + m) ≡ suc n + m = omega arith in
      ap (λ l. x ∷ l) (take-append-take-drop n m xs) ∙ ap (λ k. take k (x ∷ xs)) e

  -- A copy that starts at `i` and ends in bounds: what lay below `i`, then the copied items.
  pub take-blit :
      (xs : List A) (i : ℕ) (ys : List A)
      → i + length ys ≤ length xs
      → take (i + length ys) (blit xs i ys) ≡ take i xs ++ ys
  take-blit [] zero [] h = refl
  take-blit [] zero (y ∷ ys) h = absurd (omega arith)
  take-blit [] (suc i) ys h = absurd (omega arith)
  take-blit (x ∷ xs) zero [] h = refl
  take-blit (x ∷ xs) zero (y ∷ ys) h =
      let e : 0 + suc (length ys) ≡ suc (0 + length ys) = omega arith in
      ap (λ n. take n (y ∷ blit xs 0 ys)) e ∙ ap (λ l. y ∷ l) (take-blit xs zero ys (omega arith))
  take-blit (x ∷ xs) (suc i) [] h =
      let e : suc i + 0 ≡ suc (i + 0) = omega arith in
      ap (λ n. take n (x ∷ xs)) e
      ∙ ap (λ l. x ∷ l) (ap (λ l. take (i + 0) l) (blit-nil xs i) ∙ take-blit xs i [] (omega arith))
    where
      blit-nil : (zs : List A) (j : ℕ) → zs ≡ blit zs j []
      blit-nil [] j = refl
      blit-nil (z ∷ zs) j = refl
  take-blit (x ∷ xs) (suc i) (y ∷ ys) h =
      let e : suc i + suc (length ys) ≡ suc (i + suc (length ys)) = omega arith in
      ap (λ n. take n (x ∷ blit xs i (y ∷ ys))) e
      ∙ ap (λ l. x ∷ l) (take-blit xs i (y ∷ ys) (omega arith))

  pub get_or-set_self :
      (xs : List A) (i : ℕ) (v d : A) → i < length xs → get_or (set xs i v) i d ≡ v
  get_or-set_self [] i v d h = absurd (omega arith)
  get_or-set_self (x ∷ xs) zero v d h = refl
  get_or-set_self (x ∷ xs) (suc i) v d h = get_or-set_self xs i v d (omega arith)

  pub get_or-set_ne :
      (xs : List A) (i j : ℕ) (v d : A) → i ≢ j → get_or (set xs i v) j d ≡ get_or xs j d
  get_or-set_ne [] i j v d h = refl
  get_or-set_ne (x ∷ xs) zero zero v d h = absurd (h refl)
  get_or-set_ne (x ∷ xs) zero (suc j) v d h = refl
  get_or-set_ne (x ∷ xs) (suc i) zero v d h = refl
  get_or-set_ne (x ∷ xs) (suc i) (suc j) v d h = get_or-set_ne xs i j v d (λ e. h (ap suc e))

  pub take-append_self : (xs ys : List A) → take (length xs) (xs ++ ys) ≡ xs
  take-append_self [] ys = refl
  take-append_self (x ∷ xs) ys = ap (λ l. x ∷ l) (take-append_self xs ys)

  pub drop-append_self : (xs ys : List A) → drop (length xs) (xs ++ ys) ≡ ys
  drop-append_self [] ys = refl
  drop-append_self (x ∷ xs) ys = drop-append_self xs ys

pub length-map {ℓ κ} :
    {A : Type ℓ} {B : Type κ} (f : A → B) (xs : List A) → length (map f xs) ≡ length xs
length-map f [] = refl
length-map f (x ∷ xs) = ap suc (length-map f xs)
