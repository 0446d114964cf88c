-- ===== src/Conf/DirTable.antt =====
-- The table of voice directories: `file_dirs_parser` and `reload_file_dirs` of src/conf.c, which fill it by
-- `fill_file_dirs` and then make the directories of the days.
use vpu.Common.{
  ℕ, ◌%◌, ◌^◌, Bool, true, false, Option, none, some, List, [], ◌∷◌, ◌==◌, if◌then◌else◌, ◌&&◌, map,
  take, replicate,
}
use vpu.Dirs.{FileDirs, DirNode, FillResult, fill_file_dirs, zero_dir, max_dirs_num}
use vpu.Conf.{
  Str, str_eq, key_filedirs, ConfLeaf, ConfNode, Tree, Libc, Globals, Run, done, exited, overrun,
}
use vpu.Conf.DayDirs.{Dir, Date, init_file_dirs, init_reload_file_dirs}

-- "dir" and "disk"
abbrev pub dir_name_key : Str
dir_name_key = 100 ∷ 105 ∷ 114 ∷ []

abbrev pub disk_name : Str
disk_name = 100 ∷ 105 ∷ 115 ∷ 107 ∷ []

-- the lines of an entry: `dir`, NULL at first, and `disknum`
unfoldable pub dir_lines : Libc → List ConfLeaf → Option Str → ℕ → Option Str × ℕ
dir_lines libc [] dir disknum = (dir, disknum)
dir_lines libc (leaf ∷ leaves) dir disknum =
    let dir' = if str_eq leaf.name dir_name_key then some leaf.val else dir in
    let disknum' = if str_eq leaf.name disk_name then libc.atoi leaf.val % 2 ^ 8 else disknum in
    dir_lines libc leaves dir' disknum'

-- the table behind a call of `fill_file_dirs`, whose result is only logged
abbrev pub table_of : Option (FillResult × FileDirs) → Option FileDirs
table_of none = none
table_of (some (r, d)) = some d

-- the call for an entry
unfoldable pub fill_entry : Libc → Option Str × ℕ → FileDirs → Option FileDirs
fill_entry libc (none, disknum) d = some d
fill_entry libc (some dir, disknum) d = table_of (fill_file_dirs (libc.is_dir dir) dir disknum d)

-- the loop over the entries; `none` is a write behind the table
unfoldable pub dir_children : Libc → List ConfNode → FileDirs → Option FileDirs
dir_children libc [] d = some d
dir_children libc (child ∷ children) d =
    elim (if str_eq child.val dir_name_key
      then fill_entry libc (dir_lines libc child.head none 0) d
      else some d) [ none ↦ none | some d' ↦ dir_children libc children d' ]

-- the table as memset leaves it
abbrev pub no_dirs : FileDirs
no_dirs = record { dirs = replicate max_dirs_num zero_dir; num = 0 }

abbrev pub roots : FileDirs → List Str
roots d = map (λ n. n.dir_name) (take d.num d.dirs)

-- `memcmp(&file_dirs, &r_file_dirs, sizeof(file_dirs_info_t)) == 0`
abbrev pub same_nodes : List DirNode → List DirNode → Bool
same_nodes [] [] = true
same_nodes [] (b ∷ ys) = false
same_nodes (a ∷ xs) [] = false
same_nodes (a ∷ xs) (b ∷ ys) =
    (str_eq a.dir_name b.dir_name && (a.disk_num == b.disk_num && a.write_flag == b.write_flag))
    && same_nodes xs ys

abbrev pub same_dirs : FileDirs → FileDirs → Bool
same_dirs a b = same_nodes a.dirs b.dirs && a.num == b.num

module _ {Fs : Type 0} (is_dir : Dir → Fs → Bool) (mkdir : Dir → Fs → Bool × Fs) where
  -- the end of `file_dirs_parser`
  abbrev pub with_fs : Option Fs → Globals → Fs → Run × Fs
  with_fs none g fs = (exited, fs)
  with_fs (some fs') g fs = (done g, fs')

  unfoldable pub file_dirs_parser : Libc → Tree → Date → Date → Globals → Fs → Run × Fs
  file_dirs_parser libc tree today tomorrow g fs = elim (tree.conf_get_node key_filedirs) [
    | none ↦ (exited, fs)
    | some base ↦ elim (dir_children libc base no_dirs) [
      | none ↦ (overrun, fs)
      | some d ↦
          with_fs (init_file_dirs is_dir mkdir (roots d) today tomorrow fs)
            (record g { file_dirs = d; file_dir_no = 0 }) fs
    ]
  ]

  -- the end of `reload_file_dirs`: `init_reload_file_dirs` of a table that differs
  unfoldable pub install_dirs : FileDirs → Date → Globals → Fs → Run × Fs
  install_dirs d today g fs =
      let g' = record g { r_file_dirs = d } in
      if same_dirs g.file_dirs d
      then (done g', fs)
      else if d.num == 0
      then (done g', fs)
      else with_fs (init_reload_file_dirs is_dir mkdir (roots d) today fs)
          (record g' { vpu_dir_reload = 1 }) fs

  unfoldable pub reload_file_dirs : Libc → Tree → Date → Globals → Fs → Run × Fs
  reload_file_dirs libc tree today g fs = elim (tree.conf_get_node key_filedirs) [
    | none ↦ (done g, fs)
    | some base ↦ elim (dir_children libc base no_dirs) [
      | none ↦ (overrun, fs)
      | some d ↦ install_dirs d today g fs
    ]
  ]
