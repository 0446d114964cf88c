-- ===== src/Conf/Addresses.antt =====
-- The address of the CDR receiver: `get_cdr_ip_port` and `reload_cdr_ip_port` of src/conf.c.
use vpu.Common.{
  and_left, and_right, ==→eq, eq→==, ℕ, ◌%◌, ◌^◌, ◌<◌, ◌≡◌, ◌⊎◌, inl, inr, refl, none, some, Option,
  [], Bool-cases, leb, ◌==◌, if◌then◌else◌, ◌&&◌, arith, length, true, sym,
}
use vpu.Conf.{Str, str_eq, str_eq_refl, str_eq→eq, key_cdr_ip, key_cdr_vpuport, Tree, Libc, Globals}

-- an address of the file, if it fits 16 bytes, over the empty string
abbrev pub ip_of : Option Str → Str
ip_of none = []
ip_of (some value) = if leb 16 (length value) then [] else value

-- a port of the file as a uint32_t, 0 if there is none
abbrev pub port_of : Libc → Option Str → ℕ
port_of libc none = 0
port_of libc (some value) = libc.atoi value

unfoldable pub get_cdr_ip_port : Libc → Tree → Globals → Globals
get_cdr_ip_port libc tree g = record g {
  cdr_ip = ip_of (tree.conf_get key_cdr_ip);
  cdr_port = port_of libc (tree.conf_get key_cdr_vpuport) % 2 ^ 16;
}

unfoldable pub reload_cdr_ip_port : Libc → Tree → Globals → Globals
reload_cdr_ip_port libc tree g =
    let r_cdr_ip = ip_of (tree.conf_get key_cdr_ip) in
    let r_cdr_port = port_of libc (tree.conf_get key_cdr_vpuport) in
    if str_eq r_cdr_ip g.cdr_ip && r_cdr_port == g.cdr_port
    then g
    else record g { cdr_ip = r_cdr_ip; cdr_port = r_cdr_port % 2 ^ 16; svm_cdr_reload = 1 }

-- what a reload has done to the CDR address
pub record Installed (libc : Libc) (tree : Tree) (g g' : Globals) : Type 0 where
  pub ip : g'.cdr_ip ≡ (get_cdr_ip_port libc tree g).cdr_ip
  pub port : g'.cdr_port ≡ (get_cdr_ip_port libc tree g).cdr_port
  pub flag : (g' ≡ g) ⊎ (g'.svm_cdr_reload ≡ 1)

small_port : (port old : ℕ) → old < 65536 → port ≡ old → old ≡ port % 65536
small_port port old h p = omega arith

pub reload_cdr_ip_port-Installed :
    (libc : Libc) (tree : Tree) (g : Globals)
    → g.cdr_port < 2 ^ 16
    → Installed libc tree g (reload_cdr_ip_port libc tree g)
unfolding get_cdr_ip_port reload_cdr_ip_port
reload_cdr_ip_port-Installed libc tree g h =
    let ip = ip_of (tree.conf_get key_cdr_ip) in
    let port = port_of libc (tree.conf_get key_cdr_vpuport) in
    elim (Bool-cases (str_eq ip g.cdr_ip && port == g.cdr_port)) [
      | inr other ↦ rw other (record { ip = refl; port = refl; flag = inr refl })
      | inl same ↦
          let p : port ≡ g.cdr_port = ==→eq _ _ (and_right _ _ same) in
          rw same (record {
            ip = sym (str_eq→eq _ _ (and_left _ _ same));
            port = small_port _ _ h p;
            flag = inl refl;
          })
    ]

-- a second load of the same file finds no difference
pub reload_cdr_ip_port-quiet :
    (libc : Libc) (tree : Tree) (g : Globals)
    → port_of libc (tree.conf_get key_cdr_vpuport) < 2 ^ 16
    → g.cdr_ip ≡ ip_of (tree.conf_get key_cdr_ip)
    → g.cdr_port ≡ port_of libc (tree.conf_get key_cdr_vpuport) % 2 ^ 16
    → reload_cdr_ip_port libc tree g ≡ g
unfolding reload_cdr_ip_port
reload_cdr_ip_port-quiet libc tree g h i p =
    let e : (port_of libc (tree.conf_get key_cdr_vpuport) == g.cdr_port) ≡ true =
      eq→== _ _ (omega arith) in
    rw (e, i, str_eq_refl (ip_of (tree.conf_get key_cdr_ip))) refl
