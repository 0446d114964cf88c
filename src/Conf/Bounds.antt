-- ===== src/Conf/Bounds.antt =====
-- What src/conf.c keeps within bounds: the table of directories, the name of the configuration, the two
-- limits; and the ports that a reload does not store.
use vpu.Common.{
  ℕ, ◌+◌, ◌%◌, ◌^◌, ◌≤◌, ◌<◌, ◌≡◌, ◌≢◌, refl, inl, inr, Bool, Option, none, some, List, [], ◌∷◌,
  arith, length, leb, ltb, if◌then◌else◌, Bool-cases, Option-cases, not_leb→lt, if_keeps, ne→not_==,
}
use mathlib.Core.Path.{subst}
use vpu.Dirs.{FileDirs, FillResult, filled, refused, fill_file_dirs}
use vpu.Dirs.Fill.{IsValid, Filled, fill_file_dirs-Filled}
use vpu.Conf.{
  Str, str_eq, ConfNode, Tree, Libc, Globals, key_ma_sguardport, get_storage_time, get_disk_left,
  reload_sguard_port,
}
use vpu.Conf.DirTable.{dir_name_key, dir_lines, table_of, fill_entry, dir_children, no_dirs}
use vpu.Conf.Param.{
  Params, SnResult, taken, no_value, not_digits, ParamResult, all_digits, sn_parser, config_parser,
  param_loop, param_parser, sn_option, config_option,
}

-- a table that has grown by one directory at most
abbrev Grown : FileDirs → Option FileDirs → Type 0
Grown d none = d.num ≡ 16
Grown d (some d') = IsValid d' × (d'.num ≤ d.num + 1)

Filled-Grown :
    (is_dir : Bool) (dir : Str) (disk : ℕ) (d : FileDirs) (o : Option (FillResult × FileDirs))
    → IsValid d
    → Filled is_dir dir disk d o
    → Grown d (table_of o)
Filled-Grown is_dir dir disk d none v f = f.0
Filled-Grown is_dir dir disk d (some (refused, d')) v f = rw (f.0) (v, omega arith)
Filled-Grown is_dir dir disk d (some (filled, d')) v f = (f.0, omega (arith, f.1))

fill_entry-Grown :
    (libc : Libc) (entry : Option Str × ℕ) (d : FileDirs)
    → IsValid d
    → Grown d (fill_entry libc entry d)
unfolding fill_entry
fill_entry-Grown libc (none, disk) d v = (v, omega arith)
fill_entry-Grown libc (some dir, disk) d v =
    Filled-Grown (libc.is_dir dir) dir disk d (fill_file_dirs (libc.is_dir dir) dir disk d) v
      (fill_file_dirs-Filled (libc.is_dir dir) dir disk d v)

child-Grown :
    (libc : Libc) (child : ConfNode) (d : FileDirs)
    → IsValid d
    → Grown d (
        if str_eq child.val dir_name_key
        then fill_entry libc (dir_lines libc child.head none 0) d
        else some d)
child-Grown libc child d v =
    if_keeps (Grown d) (str_eq child.val dir_name_key)
      (fill_entry-Grown libc (dir_lines libc child.head none 0) d v) (v, omega arith)

dir_children_room :
    (libc : Libc) (children : List ConfNode) (d : FileDirs)
    → IsValid d
    → d.num + length children ≤ 16
    → (d' : FileDirs) × (dir_children libc children d ≡ some d')
      × IsValid d'
      × (d'.num ≤ d.num + length children)
unfolding dir_children
dir_children_room libc [] d v h = (d, refl, v, omega arith)
dir_children_room libc (child ∷ children) d v h =
    elim (Option-cases (
      if str_eq child.val dir_name_key
      then fill_entry libc (dir_lines libc child.head none 0) d
      else some d)) [
        | inl over ↦
            let full : d.num ≡ 16 = subst (Grown d) over (child-Grown libc child d v) in
            absurd (omega arith)
        | inr (d1, e) ↦
            let g : IsValid d1 × (d1.num ≤ d.num + 1) =
              subst (Grown d) e (child-Grown libc child d v) in
            let (d', run, v', l) = dir_children_room libc children d1 g.0 (omega (arith, g.1)) in
            (d', rw (e, dir_children) run, v', omega (arith, g.1))
      ]

-- A file of at most 16 directory entries, whatever they hold, is read without a write behind the table.
pub dir_children_fit :
    (libc : Libc) (children : List ConfNode)
    → length children ≤ 16
    → (d : FileDirs) × (dir_children libc children no_dirs ≡ some d)
      × IsValid d
      × (d.num ≤ length children)
dir_children_fit libc children h =
    let (d, e, v, l) = dir_children_room libc children no_dirs (refl, omega arith) (omega arith) in
    (d, e, v, omega arith)

abbrev ShortName : ParamResult × Params → Type 0
ShortName r = length r.1.conf_file < 128

sn_short :
    (libc : Libc) (sn : Str) (args : List Str) (p : Params)
    → length p.conf_file < 128
    → length (sn_parser libc (sn ∷ args) p).1.conf_file < 128
unfolding sn_parser
sn_short libc sn args p h = elim (Bool-cases (all_digits sn)) [ inl e ↦ rw e h | inr e ↦ rw e h ]

config_short :
    (file : Str) (args : List Str) (p : Params)
    → length p.conf_file < 128
    → length (config_parser (file ∷ args) p).1.conf_file < 128
unfolding config_parser
config_short file args p h = elim (Bool-cases (leb 128 (length file))) [
  | inl long ↦ rw long h
  | inr short ↦ rw short (not_leb→lt _ _ short)
]

sn_branch :
    (r : SnResult) (x y : ParamResult × Params)
    → ShortName x
    → ShortName y
    → ShortName (elim r [ taken ↦ x | _ ↦ y ])
sn_branch taken x y p q = p
sn_branch no_value x y p q = q
sn_branch not_digits x y p q = q

param_loop_short :
    (libc : Libc) (args : List Str) (p : Params)
    → length p.conf_file < 128
    → length (param_loop libc args p).1.conf_file < 128
unfolding param_loop sn_parser
param_loop_short libc [] p h = h
param_loop_short libc (arg ∷ []) p h = if_keeps ShortName (str_eq arg sn_option) h h
param_loop_short libc (arg ∷ value ∷ args) p h =
    if_keeps ShortName (str_eq arg sn_option)
      (sn_branch (sn_parser libc (value ∷ args) p).0 _ _
        (param_loop_short libc args (sn_parser libc (value ∷ args) p).1
          (sn_short libc value args p h))
        (sn_short libc value args p h))
      (if_keeps ShortName (str_eq arg config_option)
        (if_keeps ShortName (config_parser (value ∷ args) p).0
          (param_loop_short libc args (config_parser (value ∷ args) p).1
            (config_short value args p h))
          (param_loop_short libc (value ∷ args) p h))
        (param_loop_short libc (value ∷ args) p h))

-- Whatever the command line, the name of the configuration directory fits its 128 bytes.
pub param_parser_short :
    (libc : Libc) (app_name : Str) (args : List Str)
    → length (param_parser libc app_name args).1.conf_file < 128
unfolding param_parser
param_parser_short libc app_name args =
    if_keeps ShortName (leb 64 (length app_name)) (omega arith) (
      if_keeps ShortName (ltb (length args) 2) (omega arith)
        (param_loop_short libc args _ (omega arith)))

-- After any load of the vpu file, the first or a later one, the voice is kept for 1 to 1024 days and 1 to 1024 GB
-- are left free, whatever the file says.
pub limits_in_range :
    (libc : Libc) (tree : Tree) (g : Globals)
    → (1 ≤ (get_disk_left libc tree (get_storage_time libc tree g)).storage_time)
      × ((get_disk_left libc tree (get_storage_time libc tree g)).storage_time ≤ 1024)
      × (1 ≤ (get_disk_left libc tree (get_storage_time libc tree g)).disk_left)
      × ((get_disk_left libc tree (get_storage_time libc tree g)).disk_left ≤ 1024)
unfolding get_disk_left get_storage_time
limits_in_range libc tree g = ground arith

-- A reload that finds another port of the guard in the file asks for a new connection and leaves the old port in
-- place; when the request has been served and the same file is loaded again, it asks again.
pub reload_sguard_port_again :
    (libc : Libc) (tree : Tree) (g : Globals) {value : Str}
    → tree.conf_get key_ma_sguardport ≡ some value
    → libc.atoi value % 2 ^ 16 ≢ 0
    → libc.atoi value % 2 ^ 16 ≢ g.port_sguard
    → (reload_sguard_port libc tree g ≡ record g { dms_sguard_reload = 1 })
      × (reload_sguard_port libc tree
            (record (reload_sguard_port libc tree g) { dms_sguard_reload = 0 })
          ≡ record g { dms_sguard_reload = 1 })
unfolding reload_sguard_port
reload_sguard_port_again libc tree g e nz ne =
    let a = ne→not_== _ _ nz in
    let b = ne→not_== _ _ ne in
    let first : reload_sguard_port libc tree g ≡ record g { dms_sguard_reload = 1 } =
      rw (e, a, b, reload_sguard_port) refl in
    (first, rw first (rw (e, a, b, reload_sguard_port) refl))
