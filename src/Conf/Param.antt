-- ===== src/Conf/Param.antt =====
-- The command line: `sn_parser`, `config_parser` and `param_parser` of src/conf.c. `argv + n` with
-- `argc - n` is the list of the arguments that are left.
use vpu.Common.{
  ℕ, ◌%◌, ◌^◌, Bool, true, false, List, [], ◌∷◌, ltb, leb, if◌then◌else◌, ◌&&◌, length,
}
use vpu.Conf.{Str, str_eq, Libc}

-- the fields of `vpu_conf` that the command line sets
pub record Params : Type 0 where
  pub sn : ℕ
  pub conf_file : Str

-- "--sn", "--config", and VPU_FILE, "/usr/local/etc/vpu/"
abbrev pub sn_option : Str
sn_option = 45 ∷ 45 ∷ 115 ∷ 110 ∷ []

abbrev pub config_option : Str
config_option = 45 ∷ 45 ∷ 99 ∷ 111 ∷ 110 ∷ 102 ∷ 105 ∷ 103 ∷ []

abbrev pub vpu_file : Str
vpu_file =
    47 ∷ 117 ∷ 115 ∷ 114 ∷ 47 ∷ 108 ∷ 111 ∷ 99 ∷ 97 ∷ 108 ∷ 47 ∷ 101 ∷ 116 ∷ 99 ∷ 47 ∷ 118 ∷ 112
    ∷ 117 ∷ 47 ∷ []

-- `isdigit` on every byte
abbrev pub all_digits : Str → Bool
all_digits [] = true
all_digits (c ∷ s) = if leb 48 c && leb c 57 then all_digits s else false

-- 0, -1 and 1
pub data SnResult : Type 0 where
  no_value not_digits taken : SnResult

unfoldable pub sn_parser : Libc → List Str → Params → SnResult × Params
sn_parser libc [] p = (no_value, p)
sn_parser libc (sn ∷ args) p =
    if all_digits sn
    then (taken, record p { sn = libc.atoi sn % 2 ^ 16 })
    else (not_digits, record p { sn = 0 })

-- `config_parser`: whether it takes its argument, 1 or 0
unfoldable pub config_parser : List Str → Params → Bool × Params
config_parser [] p = (false, p)
config_parser (file ∷ args) p =
    if leb 128 (length file) then (false, p) else (true, record p { conf_file = file })

-- 0 and -1
pub data ParamResult : Type 0 where
  parsed sn_failed : ParamResult

-- The `while` of `param_parser`. A configuration name that is too long is looked at again as an option.
unfoldable pub param_loop : Libc → List Str → Params → ParamResult × Params
param_loop libc [] p = (parsed, p)
param_loop libc (arg ∷ []) p =
    if str_eq arg sn_option then (sn_failed, (sn_parser libc [] p).1) else (parsed, p)
param_loop libc (arg ∷ value ∷ args) p =
    let (r, p1) = sn_parser libc (value ∷ args) p in
    let (used, p2) = config_parser (value ∷ args) p in
    let after_sn = param_loop libc args p1 in
    let after_config = param_loop libc args p2 in
    let next_arg = param_loop libc (value ∷ args) p in
    if str_eq arg sn_option
    then (elim r [ taken ↦ after_sn | _ ↦ (sn_failed, p1) ])
    else if str_eq arg config_option
    then (if used then after_config else next_arg)
    else next_arg

-- `param_parser`; `argc < 3` is fewer than two arguments behind the name of the program
unfoldable pub param_parser : Libc → Str → List Str → ParamResult × Params
param_parser libc app_name args =
    let p : Params = record { sn = 0; conf_file = vpu_file } in
    if leb 64 (length app_name)
    then (parsed, p)
    else if ltb (length args) 2
    then (parsed, p)
    else param_loop libc args p
