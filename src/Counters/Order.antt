-- ===== src/Counters/Order.antt =====
-- The order in which threads move a counter of src/atomic.h does not matter.
use vpu.Common.{ℕ, ◌+◌, ◌-◌, ◌%◌, ◌^◌, ◌≡◌, refl, sym, ap, ◌∙◌, List, ◌∷◌, arith}
use native.Mathlib.Nat.{mod-add-mod}
use vpu.Counters.{Atomic, Op, add, sub, atomic_add, atomic_sub, apply, apply_all}

-- `ys` are the operations `xs` in another order.
pub data Reordered : List Op → List Op → Type 0 where
  same : (xs : List Op) → Reordered xs xs
  keep : {xs ys : List Op} (a : Op) → Reordered xs ys → Reordered (a ∷ xs) (a ∷ ys)
  turn : (a b : Op) (xs : List Op) → Reordered (a ∷ b ∷ xs) (b ∷ a ∷ xs)
  both : {xs ys zs : List Op} → Reordered xs ys → Reordered ys zs → Reordered xs zs

moved : Atomic → Op → ℕ
moved t (add n) = n
moved t (sub n) = 2 ^ t.width - n % 2 ^ t.width

apply-moved : (t : Atomic) (a : Op) (cnt : ℕ) → apply t cnt a ≡ (cnt + moved t a) % 2 ^ t.width
unfolding moved apply atomic_add atomic_sub
apply-moved t (add n) cnt = refl
apply-moved t (sub n) cnt = refl

swap_mod : (m v a b : ℕ) → ((v + a) % m + b) % m ≡ ((v + b) % m + a) % m
swap_mod m v a b =
    let e : v + a + b ≡ v + b + a = omega arith in
    mod-add-mod (v + a) m b ∙ ap (λ k. k % m) e ∙ sym (mod-add-mod (v + b) m a)

apply-apply :
    (t : Atomic) (a b : Op) (cnt : ℕ) → apply t (apply t cnt a) b ≡ apply t (apply t cnt b) a
apply-apply t a b cnt =
    rw
      (
        apply-moved t b (apply t cnt a),
        apply-moved t a cnt,
        apply-moved t a (apply t cnt b),
        apply-moved t b cnt,
      )
      (swap_mod (2 ^ t.width) cnt (moved t a) (moved t b))

-- Whatever the order of the additions and subtractions on a counter, it ends at the same value.
pub apply_all-order :
    (t : Atomic) {xs ys : List Op} (cnt : ℕ)
    → Reordered xs ys
    → apply_all t xs cnt ≡ apply_all t ys cnt
unfolding apply_all
apply_all-order t cnt (same xs) = refl
apply_all-order t cnt (keep a r) = apply_all-order t (apply t cnt a) r
apply_all-order t cnt (turn a b xs) = ap (apply_all t xs) (apply-apply t a b cnt)
apply_all-order t cnt (both r r') = apply_all-order t cnt r ∙ apply_all-order t cnt r'
