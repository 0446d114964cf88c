-- ===== src/Conf.antt =====
-- The configuration: src/conf.c. The YAML reader behind `ConfGet` and `ConfGetNode` is taken from
-- Suricata; a file that it has loaded is a `Tree` here. What libc and the system answer is a `Libc`.
-- A char array is the string in it; every string copied into one of 16 or 64 bytes has been measured.
pub mod Addresses
pub mod FaxTable
pub mod ServerAddr
pub mod DirTable
pub mod DayDirs
pub mod Param
pub mod Load
pub mod FaxReads
pub mod Reloaded
pub mod Bounds
mod Examples
use mathlib.Core.Path.{ap₂}
use vpu.Common.{
  refl, ==→eq, eq→==, Bool-cases, inl, inr, arith, ℕ, ◌+◌, ◌%◌, ◌^◌, ◌≡◌, Bool, true, false, Option,
  none, some, List, [], ◌∷◌, ltb, leb, ◌==◌, if◌then◌else◌, ◌&&◌, length, replicate,
}
use vpu.Dirs.{FileDirs}

abbrev pub Str : Type 0
Str = List ℕ

-- `strcmp(a, b) == 0`
abbrev pub str_eq : Str → Str → Bool
str_eq [] [] = true
str_eq [] (c ∷ t) = false
str_eq (c ∷ s) [] = false
str_eq (c ∷ s) (d ∷ t) = (c == d) && str_eq s t

pub str_eq_refl : (s : Str) → str_eq s s ≡ true
str_eq_refl [] = refl
str_eq_refl (c ∷ s) = let e : (c == c) ≡ true = eq→== c c refl in rw (e, str_eq_refl s) refl

pub str_eq→eq : (s t : Str) → str_eq s t ≡ true → s ≡ t
str_eq→eq [] [] h = refl
str_eq→eq [] (d ∷ t) h = absurd (ground arith)
str_eq→eq (c ∷ s) [] h = absurd (ground arith)
str_eq→eq (c ∷ s) (d ∷ t) h = elim (Bool-cases (c == d)) [
  | inl e ↦ ap₂ (λ x l. x ∷ l) (==→eq c d e) (str_eq→eq s t (ground arith))
  | inr ne ↦ absurd (ground arith)
]

-- the names that conf.c looks up by `ConfGet`: id, dev, storage-time, disk-left, cdr.ip, cdr.vpuport,
-- ma.sguardport and ma.maport
pub data Key : Type 0 where
  key_id key_dev key_storage_time key_disk_left key_cdr_ip key_cdr_vpuport key_ma_sguardport
        key_ma_maport :
      Key

-- and by `ConfGetNode`: filedirs, fax and vpu
pub data NodeKey : Type 0 where
  key_filedirs key_fax key_vpu : NodeKey

-- `ConfNode` at the two depths that conf.c goes to
pub record ConfLeaf : Type 0 where
  pub name : Str
  pub val : Str

pub record ConfNode : Type 0 where
  pub val : Str
  pub head : List ConfLeaf

pub record Tree : Type 0 where
  pub conf_get : Key → Option Str
  pub conf_get_node : NodeKey → Option (List ConfNode)

-- `atoi`, converted to uint32_t; `sscanf` of six hexadecimal bytes over the array that it writes to;
-- the MAC address of a device, if it has one; and whether stat finds a directory.
pub record Libc : Type 0 where
  pub atoi : Str → ℕ
  pub sscanf_mac : Str → List ℕ → List ℕ
  pub get_local_mac : Str → Option (List ℕ)
  pub is_dir : Str → Bool

-- `fax_info_t`; `none` is the descriptor -1
pub record FaxInfo : Type 0 where
  pub id : ℕ
  pub ip : Str
  pub port : ℕ
  pub fd : Option ℕ
  pub flag : ℕ

-- FAX_NUM_MAX
abbrev pub fax_num_max : ℕ
fax_num_max = 32

abbrev pub zero_fax : FaxInfo
zero_fax = record { id = 0; ip = []; port = 0; fd = some 0; flag = 0 }

-- The variables of src/conf.c, with the fields of `vpu_conf` that the files set.
pub record Globals : Type 0 where
  pub port_sguard : ℕ
  pub port_ma : ℕ
  pub dev : Str
  pub dev_mac : List ℕ
  pub file_dirs : FileDirs
  pub r_file_dirs : FileDirs
  pub file_dir_no : ℕ
  pub vpu_id : ℕ
  pub storage_time : ℕ
  pub disk_left : ℕ
  pub cdr_ip : Str
  pub cdr_port : ℕ
  pub server_ip : Str
  pub server_port : ℕ
  pub fax_infos : List FaxInfo
  pub fax_num : ℕ
  pub r_fax_infos : List FaxInfo
  pub r_fax_num : ℕ
  pub svm_cdr_reload : ℕ
  pub svm_fax_reload : ℕ
  pub svm_vpu_reload : ℕ
  pub dms_sguard_reload : ℕ
  pub dms_ma_reload : ℕ
  pub vpu_dev_reload : ℕ
  pub vpu_dir_reload : ℕ

-- How a function of the configuration ends: with the variables as it leaves them, by `exit`, or by a
-- write behind an array.
pub data Run : Type 0 where
  done : Globals → Run
  exited : Run
  overrun : Run

abbrev pub and_then : Run → (Globals → Run) → Run
and_then (done g) f = f g
and_then exited f = exited
and_then overrun f = overrun

unfoldable pub get_storage_time : Libc → Tree → Globals → Globals
get_storage_time libc tree g =
    let t : ℕ = elim (tree.conf_get key_storage_time) [
      | none ↦ g.storage_time
      | some value ↦ libc.atoi value
    ] in
    record g { storage_time = if leb t 0 then 90 else if ltb 1024 t then 90 else t }

unfoldable pub get_disk_left : Libc → Tree → Globals → Globals
get_disk_left libc tree g =
    let t : ℕ = elim (tree.conf_get key_disk_left) [
      | none ↦ g.disk_left
      | some value ↦ libc.atoi value
    ] in
    record g { disk_left = if leb t 0 then 5 else if ltb 1024 t then 5 else t }

unfoldable pub reload_storage_time : Libc → Tree → Globals → Globals
reload_storage_time libc tree g =
    let t : ℕ = elim (tree.conf_get key_storage_time) [
      | none ↦ g.storage_time
      | some value ↦ libc.atoi value
    ] in
    record g { storage_time = if leb t 0 then 90 else if ltb 1024 t then 90 else t }

unfoldable pub reload_disk_left : Libc → Tree → Globals → Globals
reload_disk_left libc tree g =
    let t : ℕ = elim (tree.conf_get key_disk_left) [
      | none ↦ g.disk_left
      | some value ↦ libc.atoi value
    ] in
    record g { disk_left = if leb t 0 then 5 else if ltb 1024 t then 5 else t }

unfoldable pub get_vpu_id : Libc → Tree → Globals → Run
get_vpu_id libc tree g = elim (tree.conf_get key_id) [
  | none ↦ exited
  | some value ↦ done (record g { vpu_id = libc.atoi value })
]

unfoldable pub reload_vpu_id : Libc → Tree → Globals → Globals
reload_vpu_id libc tree g = elim (tree.conf_get key_id) [
  | none ↦ g
  | some value ↦ record g { vpu_id = libc.atoi value }
]

-- `dev_parser`; a name of 64 bytes or more ends the process, and so does a device without a MAC address
unfoldable pub dev_parser : Libc → Tree → Globals → Run
dev_parser libc tree g = elim (tree.conf_get key_dev) [
  | none ↦ exited
  | some value ↦ if leb 64 (length value) then exited else elim (libc.get_local_mac value) [
    | none ↦ exited
    | some mac ↦ done (record g { dev = value; dev_mac = mac })
  ]
]

unfoldable pub reload_dev_parser : Tree → Globals → Globals
reload_dev_parser tree g = elim (tree.conf_get key_dev) [
  | none ↦ g
  | some value ↦
      if leb 64 (length value)
      then g
      else if str_eq value g.dev
      then g
      else record g { vpu_dev_reload = 1 }
]

unfoldable pub get_sguard_port : Libc → Tree → Globals → Globals
get_sguard_port libc tree g = elim (tree.conf_get key_ma_sguardport) [
  | none ↦ record g { port_sguard = 2000 }
  | some value ↦ record g { port_sguard = libc.atoi value % 2 ^ 16 }
]

unfoldable pub reload_sguard_port : Libc → Tree → Globals → Globals
reload_sguard_port libc tree g = elim (tree.conf_get key_ma_sguardport) [
  | none ↦ g
  | some value ↦
      let port = libc.atoi value % 2 ^ 16 in
      if port == 0
      then g
      else if port == g.port_sguard
      then g
      else record g { dms_sguard_reload = 1 }
]

unfoldable pub get_ma_port : Libc → Tree → Globals → Globals
get_ma_port libc tree g = elim (tree.conf_get key_ma_maport) [
  | none ↦ record g { port_ma = 2001 }
  | some value ↦ record g { port_ma = libc.atoi value % 2 ^ 16 }
]

unfoldable pub reload_ma_port : Libc → Tree → Globals → Globals
reload_ma_port libc tree g = elim (tree.conf_get key_ma_maport) [
  | none ↦ g
  | some value ↦
      let port = libc.atoi value % 2 ^ 16 in
      if port == 0 then g else if port == g.port_ma then g else record g { dms_ma_reload = 1 }
]
