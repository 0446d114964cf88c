-- ===== src/Dirs/Examples.antt =====
-- The theorems on the directories at small tables, and tests.
use vpu.Common.{◌≡◌, refl, true, some, [], ◌∷◌, arith, replicate}
use vpu.Dirs.{
  FileDirs, DirNode, get_root_dir, fill_file_dirs, max_dirs_num, DiskInfo, check_disks, search_dir,
  first_dir, zero_dir, FillResult,
}
use vpu.Dirs.Root.{Answers, get_root_dir_finds}
use vpu.Dirs.Fill.{Filled, fill_file_dirs-Filled}

abbrev full_dir : DirNode
full_dir = record { dir_name = 47 ∷ 97 ∷ []; disk_num = 1; write_flag = 0 }

abbrev free_dir : DirNode
free_dir = record { dir_name = 47 ∷ 98 ∷ []; disk_num = 2; write_flag = 1 }

-- three directories, of which the last may be written
abbrev three : FileDirs
three = record { dirs = full_dir ∷ full_dir ∷ free_dir ∷ replicate 13 zero_dir; num = 3 }

get_root_dir_test : get_root_dir three 0 ≡ (some (some 2), 1)
unfolding get_root_dir first_dir search_dir
get_root_dir_test = refl

check_disks_test :
    check_disks 5
      (record { f_bavail = 262144; f_bsize = 4096 }
        ∷ record { f_bavail = 2621440; f_bsize = 4096 }
        ∷ [])
      (free_dir ∷ full_dir ∷ [])
    ≡ record free_dir { write_flag = 0 } ∷ record full_dir { write_flag = 1 } ∷ []
unfolding check_disks vpu.Dirs.check_disk
check_disks_test = refl

get_root_dir_finds_example : Answers three (get_root_dir three 7).0
get_root_dir_finds_example = get_root_dir_finds three 7 (omega arith) (omega arith)

fill_file_dirs-Filled_test :
    Filled true (47 ∷ 99 ∷ []) 3 three (fill_file_dirs true (47 ∷ 99 ∷ []) 3 three)
fill_file_dirs-Filled_test = fill_file_dirs-Filled true (47 ∷ 99 ∷ []) 3 three (refl, omega arith)
