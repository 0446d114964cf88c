-- ===== src/Dirs/Fill.antt =====
-- `fill_file_dirs` of src/conf.c takes directories up to a table of 16, and one more.
use vpu.Common.{
  ℕ, ◌+◌, ◌≤◌, ◌<◌, ◌≡◌, refl, Bool, true, false, Option, none, some, ltb, leb, arith, get_or,
  Bool-cases, inl, inr, ◌∙◌, leb→le, ltb→lt, not_ltb→le, get_or-set_self, get_or-set_ne, length-set,
  length, List,
}
use vpu.Dirs.{FileDirs, FillResult, filled, refused, fill_file_dirs, zero_dir}

-- A table that the array holds.
abbrev pub IsValid : FileDirs → Type 0
IsValid d = (length d.dirs ≡ 16) × (d.num ≤ 16)

-- what a call leaves of the table
abbrev pub Filled : Bool → List ℕ → ℕ → FileDirs → Option (FillResult × FileDirs) → Type 0
Filled is_dir dir disk d none = (d.num ≡ 16) × (is_dir ≡ true)
Filled is_dir dir disk d (some (refused, d')) = (d' ≡ d) × (is_dir ≡ true → 256 ≤ length dir)
Filled is_dir dir disk d (some (filled, d')) =
    IsValid d'
    × (d'.num ≡ d.num + 1)
    × (get_or d'.dirs d.num zero_dir ≡ record { dir_name = dir; disk_num = disk; write_flag = 1 })
    × ((i : ℕ) → i < d.num → get_or d'.dirs i zero_dir ≡ get_or d.dirs i zero_dir)

-- In a valid table `fill_file_dirs` either appends the directory, marked as writable, and keeps the others
-- and the bound, or refuses and changes nothing, or writes behind the array; the last only for a directory
-- that comes when the table is full.
pub fill_file_dirs-Filled :
    (is_dir : Bool) (dir : List ℕ) (disk : ℕ) (d : FileDirs)
    → IsValid d
    → Filled is_dir dir disk d (fill_file_dirs is_dir dir disk d)
unfolding fill_file_dirs
fill_file_dirs-Filled false dir disk d (len, bound) =
    let e : ltb 16 d.num ≡ false = ground arith in rw e (refl, (λ h. absurd (ground arith)))
fill_file_dirs-Filled true dir disk d (len, bound) =
    let e : ltb 16 d.num ≡ false = ground arith in
    rw e (elim (Bool-cases (leb 256 (length dir))) [
      | inl long ↦ rw long (refl, λ h. leb→le _ _ long)
      | inr short ↦ rw short (elim (Bool-cases (ltb d.num (length d.dirs))) [
        | inl fits ↦
            let l : d.num < length d.dirs = ltb→lt _ _ fits in
            rw fits (
              (length-set d.dirs d.num _ ∙ len, omega arith),
              refl,
              get_or-set_self d.dirs d.num _ zero_dir l,
              λ i li. get_or-set_ne d.dirs d.num i _ zero_dir (omega arith),
            )
        | inr full ↦
            let l : length d.dirs ≤ d.num = not_ltb→le _ _ full in rw full (omega arith, refl)
      ])
    ])

-- A directory that comes to a full table is written behind the array: the guard of the code
-- lets the number 16 pass.
pub fill_file_dirs_overruns :
    (dir : List ℕ) (disk : ℕ) (d : FileDirs)
    → length d.dirs ≡ 16
    → d.num ≡ 16
    → length dir < 256
    → fill_file_dirs true dir disk d ≡ none
unfolding fill_file_dirs
fill_file_dirs_overruns dir disk d len full short = ground arith
