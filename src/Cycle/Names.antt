-- ===== src/Cycle/Names.antt =====
-- `check_filename` of src/cycle_operation.c accepts no name at all.
use vpu.Common.{
  ℕ, zero, suc, ◌+◌, ◌≡◌, ◌≢◌, refl, Bool-cases, inl, inr, Option, none, some, List, [], ◌∷◌, ltb,
  ◌==◌, ◌||◌, arith, ==→eq,
}
use vpu.Cycle.{valid, not_date, Stat, scan, check_date, after_scan, check_filename}

-- a run that counts no dash, or is not over, or has met a byte that is no digit
abbrev NoDash : ℕ → Option (Option (ℕ × ℕ)) → Type 0
NoDash num none = Unit {0}
NoDash num (some none) = Unit {0}
NoDash num (some (some (count, n))) = n ≡ num

-- at a dash the loop goes round for ever
scan_dash : (fuel : ℕ) (p : List ℕ) (count num : ℕ) → scan fuel (45 ∷ p) count num ≡ none
unfolding scan
scan_dash zero p count num = refl
scan_dash (suc fuel) p count num = scan_dash fuel p count (num + 1)

scan-NoDash : (fuel : ℕ) (p : List ℕ) (count num : ℕ) → NoDash num (scan fuel p count num)
unfolding scan
scan-NoDash zero p count num = tt
scan-NoDash (suc fuel) [] count num = refl
scan-NoDash (suc fuel) (c ∷ p) count num = elim (Bool-cases (c == 45)) [
  | inl dash ↦ rw (==→eq _ _ dash) (rw (scan_dash fuel p count (num + 1)) tt)
  | inr other ↦ rw other (elim (Bool-cases (ltb c 48 || ltb 57 c)) [
    | inl bad ↦ rw bad tt
    | inr digit ↦ rw digit (scan-NoDash fuel p (count + 1) num)
  ])
]

check_date-no_dash :
    (this_year : ℕ) (st : Stat) (name : List ℕ) (count : ℕ)
    → check_date this_year st name count 0 ≡ not_date
unfolding check_date
check_date-no_dash this_year st name count = ground arith

after_scan-NoDash :
    (this_year : ℕ) (st : Stat) (name : List ℕ) (r : Option (Option (ℕ × ℕ)))
    → NoDash 0 r
    → after_scan this_year st name r ≢ some valid
unfolding after_scan
after_scan-NoDash this_year st name none h e = ground arith
after_scan-NoDash this_year st name (some none) h e = ground arith
after_scan-NoDash this_year st name (some (some (count, num))) h e =
    let c : check_date this_year st name count num ≡ not_date =
      rw h (check_date-no_dash this_year st name count) in
    ground (arith, c, e)

-- Whatever the name, the clock and the file system say, and however long it runs, `check_filename` never
-- returns 0: at a dash its loop stays where it is, and a name without two dashes is refused.
pub check_filename_never_valid :
    (fuel this_year : ℕ) (st : Stat) (name : Option (List ℕ))
    → check_filename fuel this_year st name ≢ some valid
unfolding check_filename
check_filename_never_valid fuel this_year st none e = ground arith
check_filename_never_valid fuel this_year st (some name) e =
    after_scan-NoDash this_year st name (scan fuel name 0 0) (scan-NoDash fuel name 0 0) e
