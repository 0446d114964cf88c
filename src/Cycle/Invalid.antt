-- ===== src/Cycle/Invalid.antt =====
-- `change_name_format` and `delete_invalid_file` of src/cycle_operation.c, which nothing calls: they stand behind
-- `check_filename`.
use vpu.Common.{
  ℕ, ◌≡◌, Bool, true, false, ◌||◌, Option, none, some, List, [], ◌∷◌, ◌++◌, ltb, ◌==◌,
  if◌then◌else◌, byte_at, arith,
}
use vpu.Cycle.{valid, no_name, not_date, Stat, atoi, check_filename}
use vpu.Cycle.Names.{check_filename_never_valid}

-- a name in a directory, with what stat says of it
pub record DirEntry : Type 0 where
  pub d_name : List ℕ
  pub dir_stat : Stat

-- The first token up to a dash, and what lies behind it; strtok skips dashes in front of a token.
unfoldable pub token : List ℕ → List ℕ × List ℕ
token [] = ([], [])
token (c ∷ s) = let (t, rest) = token s in if c == 45 then ([], s) else (c ∷ t, rest)

-- What a call of `system` with `rm -rf` is given.
abbrev pub Removed : Type 0
Removed = List (List ℕ)

-- `change_name_format` for a name: the new form or -1, and what it removes. The three tokens of a name
-- that is a date are not empty.
unfoldable pub change_name_format : ℕ → ℕ → DirEntry → Option (Option (List ℕ) × Removed)
change_name_format fuel this_year f =
    elim (check_filename fuel this_year f.dir_stat (some f.d_name)) [
      | none ↦ none
      | some valid ↦
          let (a, s) = token f.d_name in
          let (b, s') = token s in let (c, _) = token s' in some (some (a ++ (b ++ c)), [])
      | some no_name ↦ some (none, f.d_name ∷ [])
      | some not_date ↦ some (none, f.d_name ∷ [])
    ]

-- The loop over the directory; strtok has cut the name behind its first token where a date is removed. For the dates `start` and `end_date`: the C result, and what it removes.
unfoldable pub delete_loop :
    ℕ → ℕ → ℕ → ℕ → List ℕ → List DirEntry → Removed → Option (Bool × Removed)
delete_loop fuel this_year start end_date path [] out = some (true, out)
delete_loop fuel this_year start end_date path (f ∷ fs) out =
    let gone = out ++ ((path ++ f.d_name) ∷ []) in
    let skip = delete_loop fuel this_year start end_date path fs out in
    let drop_it = delete_loop fuel this_year start end_date path fs gone in
    let drop_cut =
      delete_loop fuel this_year start end_date path fs
        (out ++ ((path ++ (token f.d_name).0) ∷ [])) in
    if byte_at f.d_name 0 == 46
    then skip
    else elim (check_filename fuel this_year f.dir_stat (some f.d_name)) [
      | none ↦ none
      | some valid ↦ elim (change_name_format fuel this_year f) [
        | none ↦ none
        | some (none, removed) ↦ some (false, out ++ removed)
        | some (some name, removed) ↦
            if ltb (atoi name 0) start || ltb end_date (atoi name 0) then drop_cut else skip
      ]
      | some no_name ↦ drop_it
      | some not_date ↦ drop_it
    ]

-- the rest of `delete_invalid_file`, for the day of `filename` and today
unfoldable pub delete_from :
    ℕ
    → ℕ
    → List ℕ
    → List DirEntry
    → Option (Option (List ℕ) × Removed)
    → Option (Option (List ℕ) × Removed)
    → Option (Bool × Removed)
delete_from fuel this_year path entries none today = none
delete_from fuel this_year path entries (some (none, r)) today = some (false, r)
delete_from fuel this_year path entries (some (some a, r)) none = none
delete_from fuel this_year path entries (some (some a, r)) (some (none, r')) = some (false, r ++ r')
delete_from fuel this_year path entries (some (some a, r)) (some (some b, r')) =
    delete_loop fuel this_year (atoi a 0) (atoi b 0) path entries (r ++ r')

-- `delete_invalid_file` with both arguments; `name` is the date of today, and `entries` what opendir and readdir give.
unfoldable pub delete_invalid_file :
    ℕ → ℕ → DirEntry → DirEntry → List ℕ → Option (List DirEntry) → Option (Bool × Removed)
delete_invalid_file fuel this_year filename name path entries =
    elim (check_filename fuel this_year filename.dir_stat (some filename.d_name)) [
      | none ↦ none
      | some valid ↦ elim entries [
        | none ↦ some (false, [])
        | some es ↦
            delete_from fuel this_year path es (change_name_format fuel this_year filename)
              (change_name_format fuel this_year name)
      ]
      | some no_name ↦ some (false, [])
      | some not_date ↦ some (false, [])
    ]

-- No call of `delete_invalid_file` removes anything: if it returns at all, it returns -1, before it has
-- looked at the directory.
pub delete_invalid_file_removes_nothing :
    (fuel this_year : ℕ) (filename name : DirEntry) (path : List ℕ)
    (entries : Option (List DirEntry)) {r : Bool × Removed}
    → delete_invalid_file fuel this_year filename name path entries ≡ some r
    → r ≡ (false, [])
unfolding delete_invalid_file
delete_invalid_file_removes_nothing fuel this_year filename name path entries e =
    ground
      (arith, e, check_filename_never_valid fuel this_year filename.dir_stat (some filename.d_name))
