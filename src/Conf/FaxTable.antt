-- ===== src/Conf/FaxTable.antt =====
-- The table of the fax machines: `get_fax_ip_port` and `reload_fax_ip_port` of src/conf.c.
use vpu.Common.{
  ℕ, zero, suc, ◌+◌, Bool, true, false, Option, none, some, List, [], ◌∷◌, ltb, leb, ◌==◌,
  if◌then◌else◌, ◌&&◌, length, get_or, set, replicate,
}
use vpu.Conf.{
  Str, str_eq, key_fax, ConfLeaf, ConfNode, Tree, Libc, FaxInfo, fax_num_max, zero_fax, Globals,
  Run, done, overrun,
}

-- "id", "ip" and "port"
abbrev pub id_name : Str
id_name = 105 ∷ 100 ∷ []

abbrev pub ip_name : Str
ip_name = 105 ∷ 112 ∷ []

abbrev pub port_name : Str
port_name = 112 ∷ 111 ∷ 114 ∷ 116 ∷ []

-- What one line of an entry does to the entry, where `flag` is the flag of a new entry: 1 in
-- `get_fax_ip_port`, 0 in `reload_fax_ip_port`. `none`: the line is not looked at, or its address is too long.
unfoldable pub fax_line : Libc → ℕ → ConfLeaf → FaxInfo → Option FaxInfo
fax_line libc flag leaf f =
    if str_eq leaf.name id_name
    then some (record f { id = libc.atoi leaf.val; flag = flag; fd = none })
    else if str_eq leaf.name ip_name
    then (if leb 16 (length leaf.val) then none else some (record f { ip = leaf.val }))
    else if str_eq leaf.name port_name
    then some (record f { port = libc.atoi leaf.val })
    else none

-- the lines of the entry `n` over the table; `none` is a write behind it
unfoldable pub fax_lines : Libc → ℕ → ℕ → List ConfLeaf → List FaxInfo → Option (List FaxInfo)
fax_lines libc flag n [] infos = some infos
fax_lines libc flag n (leaf ∷ leaves) infos =
    elim (fax_line libc flag leaf (get_or infos n zero_fax)) [
      | none ↦ fax_lines libc flag n leaves infos
      | some f ↦ if ltb n (length infos) then fax_lines libc flag n leaves (set infos n f) else none
    ]

-- The loop over the children: each one counts, but only one named "id" is read.
unfoldable pub fax_children :
    Libc → ℕ → ℕ → List ConfNode → List FaxInfo → Option (List FaxInfo × ℕ)
fax_children libc flag n [] infos = some (infos, n)
fax_children libc flag n (child ∷ children) infos =
    elim (if str_eq child.val id_name then fax_lines libc flag n child.head infos else some infos) [
      | none ↦ none
      | some infos' ↦ fax_children libc flag (n + 1) children infos'
    ]

-- the arrays as memset leaves them
abbrev pub no_faxes : List FaxInfo
no_faxes = replicate fax_num_max zero_fax

unfoldable pub get_fax_ip_port : Libc → Tree → Globals → Run
get_fax_ip_port libc tree g = elim (tree.conf_get_node key_fax) [
  | none ↦ done (record g { fax_infos = no_faxes; fax_num = 0 })
  | some base ↦ elim (fax_children libc 1 0 base no_faxes) [
    | none ↦ overrun
    | some (infos, num) ↦ done (record g { fax_infos = infos; fax_num = num })
  ]
]

-- whether an address or a port differs in the first `n` entries from `i` on
unfoldable pub fax_differs : ℕ → ℕ → List FaxInfo → List FaxInfo → Bool
fax_differs zero i r_infos infos = false
fax_differs (suc n) i r_infos infos =
    let r = get_or r_infos i zero_fax in
    let f = get_or infos i zero_fax in
    let rest = fax_differs n (i + 1) r_infos infos in
    if str_eq r.ip f.ip && r.port == f.port then rest else true

-- the part of `reload_fax_ip_port` behind the reading
unfoldable pub compare_faxes : List FaxInfo → ℕ → Globals → Globals
compare_faxes r_infos r_num g =
    let g' = record g { r_fax_infos = r_infos; r_fax_num = r_num } in
    if g.fax_num == r_num
    then (if fax_differs g.fax_num 0 r_infos g.fax_infos
        then record g' { svm_fax_reload = 1 }
        else g')
    else record g' { svm_fax_reload = 1 }

unfoldable pub reload_fax_ip_port : Libc → Tree → Globals → Run
reload_fax_ip_port libc tree g = elim (tree.conf_get_node key_fax) [
  | none ↦ done (record g { r_fax_infos = no_faxes; r_fax_num = 0 })
  | some base ↦ elim (fax_children libc 0 0 base no_faxes) [
    | none ↦ overrun
    | some (infos, num) ↦ done (compare_faxes infos num g)
  ]
]
