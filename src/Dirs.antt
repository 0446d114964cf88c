-- ===== src/Dirs.antt =====
-- The directories that voice goes to: `file_dirs_info_t` of src/conf.h, `fill_file_dirs` and
-- `reload_fill_file_dirs` of src/conf.c, `get_root_dir` of src/voice_parser.c and the disk check in
-- `cycle_thread` of src/cycle_operation.c. A directory name is a list of bytes.
pub mod Root
pub mod Fill
mod Examples
use vpu.Common.{
  ℕ, zero, suc, ◌+◌, ◌*◌, ◌/◌, ◌%◌, ◌^◌, Bool, true, false, Option, none, some, List, [], ◌∷◌, ltb,
  leb, ◌==◌, if◌then◌else◌, length, get_elem?, get_or, set, take, map,
}

abbrev pub max_dirs_num : ℕ
max_dirs_num = 16

abbrev pub max_dirs_len : ℕ
max_dirs_len = 256

-- `file_dirs_node_t`
pub record DirNode : Type 0 where
  pub dir_name : List ℕ
  pub disk_num : ℕ
  pub write_flag : ℕ

-- `file_dirs_info_t`; `dirs` is the array of 16 nodes
pub record FileDirs : Type 0 where
  pub dirs : List DirNode
  pub num : ℕ

abbrev pub zero_dir : DirNode
zero_dir = record { dir_name = []; disk_num = 0; write_flag = 0 }

abbrev pub writable : FileDirs → ℕ → Bool
writable d i = (get_or d.dirs i zero_dir).write_flag == 1

-- the next index of the search in `get_root_dir`, a uint32_t
abbrev pub next_dir : ℕ → ℕ → ℕ
next_dir num i = let j = (i + 1) % 2 ^ 32 in if leb num j then 0 else j

-- The `while (1)` of `get_root_dir` with fuel: `none` means that the fuel ran out, `some none` that the
-- search came back to where it began.
unfoldable pub search_dir : ℕ → FileDirs → ℕ → ℕ → Option (Option ℕ)
search_dir zero d start i = none
search_dir (suc fuel) d start i =
    let j = next_dir d.num i in
    let rest = search_dir fuel d start j in
    if j == start then some none else if writable d j then some (some j) else rest

-- The first index that `get_root_dir` tries, and `file_dir_no` behind it: `atomic32_add` returns the
-- old value.
unfoldable pub first_dir : FileDirs → ℕ → ℕ × ℕ
first_dir d file_dir_no =
    if leb d.num file_dir_no then (0, 1) else (file_dir_no, (file_dir_no + 1) % 2 ^ 32)

-- `get_root_dir`: the index of the directory that it returns (`some none` for NULL), and `file_dir_no`.
-- As many rounds as there are directories are enough (`Root.get_root_dir_finds`).
unfoldable pub get_root_dir : FileDirs → ℕ → Option (Option ℕ) × ℕ
get_root_dir d file_dir_no =
    let (i, file_dir_no') = first_dir d file_dir_no in
    (
      if writable d i then some (some i) else search_dir (if d.num == 0 then 1 else d.num) d i i,
      file_dir_no',
    )

-- `fill_file_dirs`, which `reload_fill_file_dirs` repeats for the other table. `is_dir` says what stat
-- answers for the name. `none` is a write behind the array.
pub data FillResult : Type 0 where
  filled refused : FillResult

unfoldable pub fill_file_dirs : Bool → List ℕ → ℕ → FileDirs → Option (FillResult × FileDirs)
fill_file_dirs is_dir dir disk d =
    if ltb max_dirs_num d.num
    then some (refused, d)
    else if is_dir
    then (if leb max_dirs_len (length dir)
        then some (refused, d)
        else if ltb d.num (length d.dirs)
        then some (
          filled,
          record d {
            dirs = set d.dirs d.num (record { dir_name = dir; disk_num = disk; write_flag = 1 });
            num = d.num + 1;
          },
        )
        else none)
    else some (refused, d)

-- What statfs answers for a directory: free blocks and block size.
pub record DiskInfo : Type 0 where
  pub f_bavail : ℕ
  pub f_bsize : ℕ

-- the disk check of `cycle_thread` for one directory, in whole GB
unfoldable pub check_disk : ℕ → DiskInfo → DirNode → DirNode
check_disk disk_left info node =
    let avail_disk = info.f_bavail * info.f_bsize % 2 ^ 64 / 2 ^ 30 in
    record node { write_flag = if leb avail_disk disk_left then 0 else 1 }

-- the loop over the first `num` directories
unfoldable pub check_disks : ℕ → List DiskInfo → List DirNode → List DirNode
check_disks disk_left [] nodes = nodes
check_disks disk_left (info ∷ infos) [] = []
check_disks disk_left (info ∷ infos) (node ∷ nodes) =
    check_disk disk_left info node ∷ check_disks disk_left infos nodes
