-- ===== src/Conf/Examples.antt =====
-- A small svm file and a small vpu file, at which the theorems on src/conf.c are applied, and tests.
use vpu.Common.{
  ℕ, ◌+◌, ◌*◌, ◌-◌, ◌≡◌, ◌≤◌, ◌<◌, ◌&&◌, refl, Bool, true, false, none, some, List, [], ◌∷◌, ◌++◌,
  arith, length, replicate, if◌then◌else◌, ◌==◌,
}
use vpu.Dirs.{FileDirs}
use vpu.Dirs.Fill.{IsValid}
use vpu.Conf.{
  Str, key_storage_time, key_cdr_ip, key_cdr_vpuport, key_ma_sguardport, key_filedirs, key_fax,
  key_vpu, ConfLeaf, ConfNode, Tree, Libc, Globals, Run, done, exited, overrun, get_storage_time,
  get_disk_left, reload_sguard_port,
}
use vpu.Conf.Addresses.{get_cdr_ip_port}
use vpu.Conf.FaxTable.{
  id_name, ip_name, port_name, fax_line, fax_lines, fax_children, no_faxes, get_fax_ip_port,
}
use vpu.Conf.ServerAddr.{mac_name, server_line, server_lines, server_children, get_server_ip_port}
use vpu.Conf.DayDirs.{
  Dir, Date, not_made, ts_dir, day_tree, e1_loop, ts_loop, create_file_dirs, day_of, day_list,
  mkdirs, outcome, create_file_dirs-mkdirs,
}
use vpu.Conf.DirTable.{dir_name_key, disk_name, dir_children, no_dirs}
use vpu.Conf.Param.{param_parser}
use vpu.Conf.Load.{get_svm_conf, reload_svm_conf}
use vpu.Conf.Reloaded.{SameSvm, reload_svm_conf-SameSvm}
use vpu.Conf.Bounds.{
  dir_children_fit, param_parser_short, limits_in_range, reload_sguard_port_again,
}

-- decimal digits
abbrev number : Str → ℕ → ℕ
number [] acc = acc
number (c ∷ s) acc = number s (acc * 10 + (c - 48))

abbrev libc : Libc
libc = record {
  atoi = λ s. number s 0;
  sscanf_mac = λ s old. s;
  get_local_mac = λ s. some (replicate 6 1);
  is_dir = λ s. true;
}

abbrev leaf : Str → Str → ConfLeaf
leaf name val = record { name = name; val = val }

-- "10" and "11", "2100", and six bytes
abbrev ten : Str
ten = 49 ∷ 48 ∷ []

abbrev eleven : Str
eleven = 49 ∷ 49 ∷ []

abbrev port : Str
port = 50 ∷ 49 ∷ 48 ∷ 48 ∷ []

abbrev faxes : List ConfNode
faxes =
    record {
      val = id_name;
      head = leaf id_name ten ∷ leaf ip_name eleven ∷ leaf port_name port ∷ [];
    }
    ∷ record { val = ip_name; head = [] }
    ∷ []

abbrev base : List ConfNode
base =
    record { val = id_name; head = leaf id_name eleven ∷ leaf ip_name eleven ∷ [] }
    ∷ record {
      val = id_name;
      head =
          leaf id_name ten
          ∷ leaf mac_name (replicate 6 1)
          ∷ leaf ip_name ten
          ∷ leaf port_name port
          ∷ [];
    }
    ∷ []

abbrev tree : Tree
tree = record {
  conf_get = λ k. elim k [
    | key_cdr_ip ↦ some eleven
    | key_cdr_vpuport ↦ some port
    | key_ma_sguardport ↦ some port
    | key_storage_time ↦ some port
    | _ ↦ none
  ];
  conf_get_node = λ k. elim k [ key_fax ↦ some faxes | key_vpu ↦ some base | key_filedirs ↦ none ];
}

abbrev globals : Globals
globals = record {
  port_sguard = 2000;
  port_ma = 2001;
  dev = [];
  dev_mac = replicate 6 1;
  file_dirs = no_dirs;
  r_file_dirs = no_dirs;
  file_dir_no = 0;
  vpu_id = 10;
  storage_time = 90;
  disk_left = 5;
  cdr_ip = [];
  cdr_port = 0;
  server_ip = [];
  server_port = 0;
  fax_infos = no_faxes;
  fax_num = 0;
  r_fax_infos = no_faxes;
  r_fax_num = 0;
  svm_cdr_reload = 0;
  svm_fax_reload = 0;
  svm_vpu_reload = 0;
  dms_sguard_reload = 0;
  dms_ma_reload = 0;
  vpu_dev_reload = 0;
  vpu_dir_reload = 0;
}

abbrev of_run : Run → Globals
of_run (done g) = g
of_run exited = globals
of_run overrun = globals

abbrev started : Globals
started = of_run (get_svm_conf libc (some tree) globals)

started_test : get_svm_conf libc (some tree) globals ≡ done started
unfolding get_svm_conf get_fax_ip_port fax_children fax_lines fax_line get_cdr_ip_port
    get_server_ip_port server_children server_lines server_line
started_test = refl

server_test : (started.server_ip ≡ ten) × (started.server_port ≡ 2100) × (started.fax_num ≡ 2)
unfolding get_svm_conf get_fax_ip_port fax_children fax_lines fax_line get_cdr_ip_port
    get_server_ip_port server_children server_lines server_line
server_test = (refl, refl, refl)

reload_svm_conf-SameSvm_example :
    (g2 : Globals) × (reload_svm_conf libc (some tree) globals ≡ done g2) × SameSvm started g2
reload_svm_conf-SameSvm_example =
    reload_svm_conf-SameSvm libc tree globals globals refl (omega arith) refl refl refl
      (omega arith) started_test

abbrev dirs : List ConfNode
dirs = record { val = dir_name_key; head = leaf dir_name_key eleven ∷ leaf disk_name ten ∷ [] } ∷ []

dir_children_fit_test :
    (d : FileDirs) × (dir_children libc dirs no_dirs ≡ some d) × IsValid d × (d.num ≤ 1)
dir_children_fit_test = dir_children_fit libc dirs (omega arith)

abbrev config : List Str
config = (45 ∷ 45 ∷ 99 ∷ 111 ∷ 110 ∷ 102 ∷ 105 ∷ 103 ∷ []) ∷ ten ∷ []

param_parser_short_test : length (param_parser libc ten config).1.conf_file < 128
param_parser_short_test = param_parser_short libc ten config

limits_in_range_test :
    (1 ≤ (get_disk_left libc tree (get_storage_time libc tree globals)).storage_time)
    × ((get_disk_left libc tree (get_storage_time libc tree globals)).storage_time ≤ 1024)
    × (1 ≤ (get_disk_left libc tree (get_storage_time libc tree globals)).disk_left)
    × ((get_disk_left libc tree (get_storage_time libc tree globals)).disk_left ≤ 1024)
limits_in_range_test = limits_in_range libc tree globals

reload_sguard_port_again_test :
    (reload_sguard_port libc tree globals ≡ record globals { dms_sguard_reload = 1 })
    × (reload_sguard_port libc tree
          (record (reload_sguard_port libc tree globals) { dms_sguard_reload = 0 })
        ≡ record globals { dms_sguard_reload = 1 })
reload_sguard_port_again_test =
    reload_sguard_port_again libc tree globals refl (λ e. absurd (omega arith))
      (λ e. absurd (omega arith))

abbrev date : Date
date = record { year = 2026; month = 1; day = 2 }

-- no directory is there yet
abbrev nothing_there : Dir → ℕ → Bool
nothing_there d n = false

-- a file system where the time slot directory 7 of E1 line 3 can not be made
abbrev refuses : Dir → ℕ → Bool × ℕ
refuses (ts_dir d i j) n = if i == 3 && j == 7 then (false, n) else (true, n + 1)
refuses d n = (true, n + 1)

create_test : create_file_dirs nothing_there refuses ten date 0 ≡ (not_made, 108)
unfolding create_file_dirs day_tree e1_loop ts_loop
create_test = refl

create_file_dirs-mkdirs_example :
    create_file_dirs nothing_there refuses ten date 0
    ≡ outcome nothing_there refuses (
        mkdirs nothing_there refuses
          (day_list (day_of ten false date) ++ day_list (day_of ten true date))
          0)
create_file_dirs-mkdirs_example = create_file_dirs-mkdirs nothing_there refuses ten date 0
