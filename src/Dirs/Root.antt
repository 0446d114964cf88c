-- ===== src/Dirs/Root.antt =====
-- `get_root_dir` of src/voice_parser.c finds a directory that may be written exactly when there is one.
use vpu.Common.{
  ℕ, zero, suc, ◌+◌, ◌-◌, ◌≤◌, ◌<◌, ◌≡◌, ◌≢◌, refl, inl, inr, true, false, Bool-cases, Option, none,
  some, ltb, leb, ltb→lt, leb→le, not_leb→lt, not_ltb→le, not_==→ne, ◌==◌, if◌then◌else◌, arith,
  ==→eq,
}
use mathlib.Core.Path.{subst, sym}
use vpu.Dirs.{FileDirs, writable, next_dir, search_dir, first_dir, get_root_dir}

-- the index `k` steps behind `start`
abbrev at_step : ℕ → ℕ → ℕ → ℕ
at_step num start k = if ltb (start + k) num then start + k else start + k - num

next-at_step :
    (num start k : ℕ)
    → num < 2147483648
    → start < num
    → suc k < num
    → next_dir num (at_step num start k) ≡ at_step num start (suc k)
next-at_step num start k h s l = ground arith

-- after `num` steps the search is back at its start
next-last :
    (num start k : ℕ)
    → num < 2147483648
    → start < num
    → suc k ≡ num
    → next_dir num (at_step num start k) ≡ start
next-last num start k h s e = ground arith

-- every index is some steps behind the start
step_to :
    (num start i : ℕ) → start < num → i < num → (k : ℕ) × (k < num) × (at_step num start k ≡ i)
step_to num start i h l = elim (Bool-cases (ltb i start)) [
  | inl before ↦ (i + num - start, ground arith, ground arith)
  | inr after ↦ (i - start, ground arith, ground arith)
]

-- what a search may answer
abbrev pub Answers : FileDirs → Option (Option ℕ) → Type 0
Answers d none = ⊥
Answers d (some (some i)) = (i < d.num) × (writable d i ≡ true)
Answers d (some none) = (i : ℕ) → i < d.num → writable d i ≡ false

round : FileDirs → ℕ → Option (Option ℕ) → ℕ → Option (Option ℕ)
round d start rest j =
    if j == start then some none else if writable d j then some (some j) else rest

at_step-bound : (num start k : ℕ) → start < num → k < num → at_step num start k < num
at_step-bound num start k s l = ground arith

at_step-ne : (num start k : ℕ) → start < num → suc k < num → at_step num start (suc k) ≢ start
at_step-ne num start k s l e = ground arith

-- a round that moves on to an index `j` other than the start
round-more :
    (d : FileDirs) (start j : ℕ) (rest : Option (Option ℕ))
    → j < d.num
    → j ≢ start
    → (writable d j ≡ false → Answers d rest)
    → Answers d (round d start rest j)
unfolding round
round-more d start j rest l ne f = elim (Bool-cases (j == start)) [
  | inl e ↦ absurd (ne (==→eq _ _ e))
  | inr e ↦ elim (Bool-cases (writable d j)) [
    | inl w ↦ rw e (rw w (l, w))
    | inr w ↦ rw e (rw w (f w))
  ]
]

round-last :
    (d : FileDirs) (start : ℕ) (rest : Option (Option ℕ))
    → ((i : ℕ) → i < d.num → writable d i ≡ false)
    → Answers d (round d start rest start)
unfolding round
round-last d start rest f = elim (Bool-cases (start == start)) [
  | inl e ↦ rw e f
  | inr e ↦ absurd (not_==→ne _ _ e refl)
]

le_zero : (j : ℕ) → j ≤ 0 → j ≡ 0
le_zero j l = omega arith

tried_next :
    (d : FileDirs) (start k : ℕ)
    → ((j : ℕ) → j ≤ k → writable d (at_step d.num start j) ≡ false)
    → writable d (at_step d.num start (suc k)) ≡ false
    → (j : ℕ) → j ≤ suc k
    → writable d (at_step d.num start j) ≡ false
tried_next d start k tried w j l = elim (Bool-cases (leb j k)) [
  | inl e ↦ tried j (leb→le _ _ e)
  | inr e ↦
      let above = not_leb→lt _ _ e in
      subst (λ i. writable d (at_step d.num start i) ≡ false) (omega arith) w
]

all_tried :
    (d : FileDirs) (start k : ℕ)
    → start < d.num
    → d.num ≤ suc k
    → ((j : ℕ) → j ≤ k → writable d (at_step d.num start j) ≡ false)
    → (i : ℕ) → i < d.num
    → writable d i ≡ false
all_tried d start k s l tried i h =
    let (j, lj, e) = step_to d.num start i s h in
    subst (λ i. writable d i ≡ false) e (tried j (omega arith))

search_dir-Answers :
    (fuel : ℕ) (d : FileDirs) (start k : ℕ)
    → d.num < 2147483648
    → start < d.num
    → k < d.num
    → d.num ≤ fuel + k
    → ((j : ℕ) → j ≤ k → writable d (at_step d.num start j) ≡ false)
    → Answers d (search_dir fuel d start (at_step d.num start k))
unfolding search_dir round
search_dir-Answers zero d start k h s l f tried = absurd (omega arith)
search_dir-Answers (suc fuel) d start k h s l f tried = elim (Bool-cases (ltb (suc k) d.num)) [
  | inl more ↦
      subst (λ j. Answers d (round d start (search_dir fuel d start j) j))
        (sym (next-at_step d.num start k h s (ltb→lt _ _ more)))
        (round-more d start (at_step d.num start (suc k))
          (search_dir fuel d start (at_step d.num start (suc k)))
          (at_step-bound d.num start (suc k) s (ltb→lt _ _ more))
          (at_step-ne d.num start k s (ltb→lt _ _ more))
          (λ w.
            search_dir-Answers fuel d start (suc k) h s (ltb→lt _ _ more) (omega arith)
              (tried_next d start k tried w)))
  | inr last ↦
      let end = not_ltb→le _ _ last in
      subst (λ j. Answers d (round d start (search_dir fuel d start j) j))
        (sym (next-last d.num start k h s (omega arith)))
        (round-last d start (search_dir fuel d start start) (all_tried d start k s end tried))
]

-- the search from the index `i`
root-Answers :
    (d : FileDirs) (i : ℕ)
    → i < d.num
    → d.num < 2147483648
    → Answers d
        (if writable d i then some (some i) else search_dir (if d.num == 0 then 1 else d.num) d i i)
root-Answers d i l h = elim (Bool-cases (writable d i)) [
  | inl w ↦ rw w (l, w)
  | inr w ↦
      let e : (d.num == 0) ≡ false = ground arith in
      let at : at_step d.num i 0 ≡ i = ground arith in
      rw w (
        rw e (
          subst (λ j. Answers d (search_dir d.num d i j)) at
            (search_dir-Answers d.num d i 0 h l (omega arith) (omega arith)
              (λ j lj. rw (le_zero j lj) (rw at w)))))
]

-- When there is a directory, `get_root_dir` returns, whatever `file_dir_no` is: the directory that it
-- returns is one of the table and may be written, and it returns NULL only if no directory of the table
-- may be written.
pub get_root_dir_finds :
    (d : FileDirs) (file_dir_no : ℕ)
    → 0 < d.num
    → d.num < 2147483648
    → Answers d (get_root_dir d file_dir_no).0
unfolding get_root_dir first_dir
get_root_dir_finds d next p h = elim (Bool-cases (leb d.num next)) [
  | inl e ↦ rw e (root-Answers d 0 p h)
  | inr e ↦ rw e (root-Answers d next (not_leb→lt _ _ e) h)
]
