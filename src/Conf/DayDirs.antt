-- ===== src/Conf/DayDirs.antt =====
-- The directories of a day: `create_file_dirs`, `create_all_dirs`, `init_file_dirs` and `init_reload_file_dirs` of
-- src/conf.c. Below a root lie `normal` and `case`, in each a directory for the date, in that 64 for the E1 lines and
-- in each of those 32 for the time slots. A directory is kept as the parts of its name. The file system is a
-- parameter: its state, what stat finds to be a directory, and mkdir, which says whether it succeeded.
use vpu.Common.{
  refl, ap, ◌∙◌, ℕ, zero, suc, ◌+◌, ◌≡◌, Bool, true, false, Option, none, some, List, [], ◌∷◌, ◌++◌,
  if◌then◌else◌,
}
use vpu.Conf.{Str}

-- the date directory of a root, below `case` or below `normal`
pub record Day : Type 0 where
  pub root : Str
  pub is_case : Bool
  pub year : ℕ
  pub month : ℕ
  pub day : ℕ

pub data Dir : Type 0 where
  kind_dir : Str → Bool → Dir
  date_dir : Day → Dir
  e1_dir : Day → ℕ → Dir
  ts_dir : Day → ℕ → ℕ → Dir

-- 0, -1 and -2
pub data CreateResult : Type 0 where
  created not_made exists_already : CreateResult

-- year, month and day of the month
pub record Date : Type 0 where
  pub year : ℕ
  pub month : ℕ
  pub day : ℕ

abbrev pub day_of : Str → Bool → Date → Day
day_of root is_case d = record {
  root = root;
  is_case = is_case;
  year = d.year;
  month = d.month;
  day = d.day;
}

-- The date of the next day, as the reload writes it: one is added to the day of the month.
abbrev pub day_after : Date → Date
day_after today = record today { day = today.day + 1 }

-- The directories of a day, in one list.
abbrev pub ts_list : ℕ → Day → ℕ → ℕ → List Dir
ts_list zero day i j = []
ts_list (suc n) day i j = ts_dir day i j ∷ ts_list n day i (j + 1)

abbrev pub e1_list : ℕ → Day → ℕ → List Dir
e1_list zero day i = []
e1_list (suc n) day i = e1_dir day i ∷ (ts_list 32 day i 0 ++ e1_list n day (i + 1))

abbrev pub day_list : Day → List Dir
day_list day = date_dir day ∷ e1_list 64 day 0

module _ {Fs : Type 0} (is_dir : Dir → Fs → Bool) (mkdir : Dir → Fs → Bool × Fs) where
  -- what follows a mkdir that succeeds; a failure ends the function
  abbrev pub or_fail : Bool × Fs → (Fs → Bool × Fs) → Bool × Fs
  or_fail (true, fs) k = k fs
  or_fail (false, fs) k = (false, fs)

  -- `for (j = 0; j < 32; j++)`, with `rounds` rounds left
  unfoldable pub ts_loop : ℕ → Day → ℕ → ℕ → Fs → Bool × Fs
  ts_loop zero day i j fs = (true, fs)
  ts_loop (suc rounds) day i j fs =
      or_fail (mkdir (ts_dir day i j) fs) (ts_loop rounds day i (j + 1))

  -- `for (i = 0; i < 64; i++)`
  unfoldable pub e1_loop : ℕ → Day → ℕ → Fs → Bool × Fs
  e1_loop zero day i fs = (true, fs)
  e1_loop (suc rounds) day i fs =
      or_fail (mkdir (e1_dir day i) fs)
        (λ fs1. or_fail (ts_loop 32 day i 0 fs1) (e1_loop rounds day (i + 1)))

  -- one of the two halves of `create_file_dirs`
  unfoldable pub day_tree : Day → Fs → Bool × Fs
  day_tree day fs = or_fail (mkdir (date_dir day) fs) (e1_loop 64 day 0)

  unfoldable pub create_file_dirs : Str → Date → Fs → CreateResult × Fs
  create_file_dirs root d fs =
      if is_dir (date_dir (day_of root false d)) fs
      then (exists_already, fs)
      else (let (ok, fs') =
            or_fail (day_tree (day_of root false d) fs) (day_tree (day_of root true d)) in
          (if ok then created else not_made, fs'))

  -- `create_all_dirs` on the first `file_dirs.num` directories
  unfoldable pub create_all_dirs : List Str → Date → Fs → Fs
  create_all_dirs [] d fs = fs
  create_all_dirs (root ∷ roots) d fs = create_all_dirs roots d (create_file_dirs root d fs).1

  -- `normal` or `case` of a root, made if it is missing
  unfoldable pub ensure_kind : Str → Bool → Fs → Bool × Fs
  ensure_kind root is_case fs =
      if is_dir (kind_dir root is_case) fs then (true, fs) else mkdir (kind_dir root is_case) fs

  -- The loop of `init_file_dirs`, with the dates of now and of 24 hours later; `none` is the exit. The loop of
  -- `init_reload_file_dirs` is the same, with other dates.
  unfoldable pub init_roots : List Str → Date → Date → Fs → Option Fs
  init_roots [] today tomorrow fs = some fs
  init_roots (root ∷ roots) today tomorrow fs =
      let (ok, fs1) = or_fail (ensure_kind root false fs) (ensure_kind root true) in
      let rest =
        init_roots roots today tomorrow
          (create_file_dirs root tomorrow (create_file_dirs root today fs1).1).1 in
      if ok then rest else none

  unfoldable pub init_file_dirs : List Str → Date → Date → Fs → Option Fs
  init_file_dirs [] today tomorrow fs = none
  init_file_dirs (root ∷ roots) today tomorrow fs = init_roots (root ∷ roots) today tomorrow fs

  unfoldable pub init_reload_file_dirs : List Str → Date → Fs → Option Fs
  init_reload_file_dirs roots today fs = init_roots roots today (day_after today) fs

  -- Making the directories of a list in order, up to the first that fails.
  abbrev pub mkdirs : List Dir → Fs → Bool × Fs
  mkdirs [] fs = (true, fs)
  mkdirs (d ∷ ds) fs = or_fail (mkdir d fs) (mkdirs ds)

  -- how `create_file_dirs` ends
  abbrev pub outcome : Bool × Fs → CreateResult × Fs
  outcome (true, fs) = (created, fs)
  outcome (false, fs) = (not_made, fs)

  or_fail_cong :
      (r : Bool × Fs) {k l : Fs → Bool × Fs} → ((fs : Fs) → k fs ≡ l fs) → or_fail r k ≡ or_fail r l
  or_fail_cong (true, fs) h = h fs
  or_fail_cong (false, fs) h = refl

  or_fail_assoc :
      (r : Bool × Fs) (k l : Fs → Bool × Fs)
      → or_fail (or_fail r k) l ≡ or_fail r (λ fs. or_fail (k fs) l)
  or_fail_assoc (true, fs) k l = refl
  or_fail_assoc (false, fs) k l = refl

  mkdirs-append :
      (xs ys : List Dir) (fs : Fs) → or_fail (mkdirs xs fs) (mkdirs ys) ≡ mkdirs (xs ++ ys) fs
  mkdirs-append [] ys fs = refl
  mkdirs-append (x ∷ xs) ys fs =
      or_fail_assoc (mkdir x fs) (mkdirs xs) (mkdirs ys)
      ∙ or_fail_cong (mkdir x fs) (mkdirs-append xs ys)

  ts_loop-mkdirs :
      (n : ℕ) (day : Day) (i j : ℕ) (fs : Fs) → ts_loop n day i j fs ≡ mkdirs (ts_list n day i j) fs
  unfolding ts_loop
  ts_loop-mkdirs zero day i j fs = refl
  ts_loop-mkdirs (suc n) day i j fs =
      or_fail_cong (mkdir (ts_dir day i j) fs) (ts_loop-mkdirs n day i (j + 1))

  e1_loop-mkdirs :
      (n : ℕ) (day : Day) (i : ℕ) (fs : Fs) → e1_loop n day i fs ≡ mkdirs (e1_list n day i) fs
  unfolding e1_loop
  e1_loop-mkdirs zero day i fs = refl
  e1_loop-mkdirs (suc n) day i fs = or_fail_cong (mkdir (e1_dir day i) fs) (λ fs1.
      ap (λ r. or_fail r (e1_loop n day (i + 1))) (ts_loop-mkdirs 32 day i 0 fs1)
      ∙ or_fail_cong (mkdirs (ts_list 32 day i 0) fs1) (e1_loop-mkdirs n day (i + 1))
      ∙ mkdirs-append (ts_list 32 day i 0) (e1_list n day (i + 1)) fs1)

  day_tree-mkdirs : (day : Day) (fs : Fs) → day_tree day fs ≡ mkdirs (day_list day) fs
  unfolding day_tree
  day_tree-mkdirs day fs = or_fail_cong (mkdir (date_dir day) fs) (e1_loop-mkdirs 64 day 0)

  -- `create_file_dirs` makes nothing if the date directory below `normal` is there; else it makes the directories of
  -- both lists in their order, those of `normal` first, stops at the first that fails, and says which it was.
  pub create_file_dirs-mkdirs :
      (root : Str) (d : Date) (fs : Fs)
      → create_file_dirs root d fs ≡ (
          if is_dir (date_dir (day_of root false d)) fs
          then (exists_already, fs)
          else outcome
              (mkdirs (day_list (day_of root false d) ++ day_list (day_of root true d)) fs))
  unfolding create_file_dirs
  create_file_dirs-mkdirs root d fs =
      ap (λ r. if is_dir (date_dir (day_of root false d)) fs then (exists_already, fs) else r)
        (outcome_of (or_fail (day_tree (day_of root false d) fs) (day_tree (day_of root true d)))
          ∙ ap outcome (
              ap (λ r. or_fail r (day_tree (day_of root true d)))
                (day_tree-mkdirs (day_of root false d) fs)
              ∙ or_fail_cong (mkdirs (day_list (day_of root false d)) fs)
                  (day_tree-mkdirs (day_of root true d))
              ∙ mkdirs-append (day_list (day_of root false d)) (day_list (day_of root true d)) fs))
    where
      outcome_of : (r : Bool × Fs) → (if r.0 then created else not_made, r.1) ≡ outcome r
      outcome_of (true, fs) = refl
      outcome_of (false, fs) = refl
