-- ===== src/Conf/Load.antt =====
-- The six functions of src/conf.c that load a file, at the start of the process and again: `get_vpu_conf`,
-- `reload_vpu_conf` and those for the svm and the dms file. `none` stands for a file that
-- `ConfYamlLoadFile` refuses. The settings of the log (`get_log_para`) are outside.
use vpu.Common.{Bool, Option, none, some}
use vpu.Agent.{Conf, svm_conf, dms_conf, vpu_conf, other_name}
use vpu.Conf.{
  Tree, Libc, Globals, Run, done, exited, overrun, and_then, get_storage_time, get_disk_left,
  reload_storage_time, reload_disk_left, get_vpu_id, reload_vpu_id, dev_parser, reload_dev_parser,
  get_sguard_port, reload_sguard_port, get_ma_port, reload_ma_port,
}
use vpu.Conf.Addresses.{get_cdr_ip_port, reload_cdr_ip_port}
use vpu.Conf.FaxTable.{get_fax_ip_port, reload_fax_ip_port}
use vpu.Conf.ServerAddr.{get_server_ip_port, reload_server_ip_port}
use vpu.Conf.DayDirs.{Dir, Date}
use vpu.Conf.DirTable.{file_dirs_parser, reload_file_dirs}

unfoldable pub get_svm_conf : Libc → Option Tree → Globals → Run
get_svm_conf libc none g = exited
get_svm_conf libc (some tree) g =
    and_then (get_fax_ip_port libc tree (get_cdr_ip_port libc tree g))
      (get_server_ip_port libc tree)

unfoldable pub reload_svm_conf : Libc → Option Tree → Globals → Run
reload_svm_conf libc none g = done g
reload_svm_conf libc (some tree) g =
    and_then (reload_fax_ip_port libc tree (reload_cdr_ip_port libc tree g))
      (λ g'. done (reload_server_ip_port libc tree g'))

unfoldable pub get_dms_conf : Libc → Option Tree → Globals → Run
get_dms_conf libc none g = exited
get_dms_conf libc (some tree) g = done (get_ma_port libc tree (get_sguard_port libc tree g))

unfoldable pub reload_dms_conf : Libc → Option Tree → Globals → Run
reload_dms_conf libc none g = done g
reload_dms_conf libc (some tree) g =
    done (reload_ma_port libc tree (reload_sguard_port libc tree g))

module _ {Fs : Type 0} (is_dir : Dir → Fs → Bool) (mkdir : Dir → Fs → Bool × Fs) where
  -- a function that works on the file system too, behind one that does not
  abbrev pub and_then_fs : Run → (Globals → Run × Fs) → Fs → Run × Fs
  and_then_fs (done g) k fs = k g
  and_then_fs exited k fs = (exited, fs)
  and_then_fs overrun k fs = (overrun, fs)

  unfoldable pub get_vpu_conf : Libc → Option Tree → Date → Date → Globals → Fs → Run × Fs
  get_vpu_conf libc none today tomorrow g fs = (exited, fs)
  get_vpu_conf libc (some tree) today tomorrow g fs =
      and_then_fs (and_then (get_vpu_id libc tree g) (dev_parser libc tree))
        (λ g'.
          file_dirs_parser is_dir mkdir libc tree today tomorrow
            (get_disk_left libc tree (get_storage_time libc tree g')) fs)
        fs

  unfoldable pub reload_vpu_conf : Libc → Option Tree → Date → Globals → Fs → Run × Fs
  reload_vpu_conf libc none today g fs = (done g, fs)
  reload_vpu_conf libc (some tree) today g fs =
      reload_file_dirs is_dir mkdir libc tree today
        (reload_disk_left libc tree
          (reload_storage_time libc tree (reload_dev_parser tree (reload_vpu_id libc tree g))))
        fs

  -- what `ma_cmd_reload` of src/conn_serv.c does about one file name
  unfoldable pub reload_named : Libc → (Conf → Option Tree) → Date → Conf → Globals → Fs → Run × Fs
  reload_named libc load today svm_conf g fs = (reload_svm_conf libc (load svm_conf) g, fs)
  reload_named libc load today dms_conf g fs = (reload_dms_conf libc (load dms_conf) g, fs)
  reload_named libc load today vpu_conf g fs = reload_vpu_conf libc (load vpu_conf) today g fs
  reload_named libc load today other_name g fs = (done g, fs)
