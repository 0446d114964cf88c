-- ===== src/Conf/Reloaded.antt =====
-- The svm file, loaded at the start of the process and loaded again by the management agent: `get_svm_conf`
-- and `reload_svm_conf` of src/conf.c agree on what the file says.
use vpu.Common.{
  ℕ, ◌^◌, ◌≤◌, ◌<◌, ◌≡◌, refl, sym, ◌∙◌, ap, inl, inr, true, false, some, List, length, get_or,
  Bool-cases, Option-cases, if_keeps, ◌==◌, ◌&&◌,
}
use mathlib.Core.Path.{subst}
use vpu.Conf.{
  Str, str_eq, key_fax, key_vpu, ConfNode, Tree, Libc, FaxInfo, zero_fax, Globals, Run, done,
  exited, overrun, and_then,
}
use vpu.Conf.Addresses.{get_cdr_ip_port, reload_cdr_ip_port, reload_cdr_ip_port-Installed}
use vpu.Conf.FaxTable.{fax_differs, compare_faxes}
use vpu.Conf.FaxReads.{
  SameMachine, SameTables, tables-Same, get_fax_ip_port-table, reload_fax_ip_port-table,
}
use vpu.Conf.ServerAddr.{
  Found, server_children, nothing_found, take_server, get_server_ip_port, reload_server_ip_port,
  SameServer, reload_server_ip_port-Same,
}
use vpu.Conf.Load.{get_svm_conf, reload_svm_conf}

-- what the functions for the server's address leave alone
record Kept (a b : Globals) : Type 0 where
  cdr_ip : b.cdr_ip ≡ a.cdr_ip
  cdr_port : b.cdr_port ≡ a.cdr_port
  fax_infos : b.fax_infos ≡ a.fax_infos
  fax_num : b.fax_num ≡ a.fax_num
  r_fax_infos : b.r_fax_infos ≡ a.r_fax_infos
  r_fax_num : b.r_fax_num ≡ a.r_fax_num

Kept-server :
    (g : Globals) (ip : Str) (port flag : ℕ)
    → Kept g (record g { server_ip = ip; server_port = port; svm_vpu_reload = flag })
Kept-server g ip port flag = record {
  cdr_ip = refl;
  cdr_port = refl;
  fax_infos = refl;
  fax_num = refl;
  r_fax_infos = refl;
  r_fax_num = refl;
}

Kept-refl : (g : Globals) → Kept g g
Kept-refl g = Kept-server g g.server_ip g.server_port g.svm_vpu_reload

abbrev KeptBy : Globals → Run → Type 0
KeptBy a (done b) = Kept a b
KeptBy a exited = Unit {0}
KeptBy a overrun = Unit {0}

get_server-KeptBy :
    (libc : Libc) (tree : Tree) (g : Globals) → KeptBy g (get_server_ip_port libc tree g)
unfolding get_server_ip_port
get_server-KeptBy libc tree g = elim (Option-cases (tree.conf_get_node key_vpu)) [
  | inl e ↦ rw (e, get_server_ip_port) (Kept-refl g)
  | inr (base, node) ↦
      elim (Option-cases (server_children false libc g.vpu_id g.dev_mac base nothing_found)) [
        | inl e ↦ rw (node, e, get_server_ip_port) tt
        | inr (r, e) ↦
            rw (node, e, get_server_ip_port)
              (elim (Bool-cases r.id_flag) [
                | inl ours ↦ rw ours (Kept-server g r.ip r.port g.svm_vpu_reload)
                | inr other ↦ rw other tt
              ])
      ]
]

take_server-Kept : (r : Found) (g : Globals) → Kept g (take_server r g)
unfolding take_server
take_server-Kept r g =
    if_keeps (Kept g) (str_eq r.ip g.server_ip && r.port == g.server_port) (Kept-refl g)
      (Kept-server g r.ip r.port 1)

reload_server-Kept :
    (libc : Libc) (tree : Tree) (g : Globals) → Kept g (reload_server_ip_port libc tree g)
unfolding reload_server_ip_port
reload_server-Kept libc tree g = elim (Option-cases (tree.conf_get_node key_vpu)) [
  | inl e ↦ rw (e, reload_server_ip_port) (Kept-refl g)
  | inr (base, node) ↦
      elim (Option-cases (server_children true libc g.vpu_id g.dev_mac base nothing_found)) [
        | inl e ↦ rw (node, e, reload_server_ip_port) (Kept-refl g)
        | inr (r, e) ↦
            rw (node, e, reload_server_ip_port)
              (if_keeps (Kept g) r.id_flag (take_server-Kept r g) (Kept-refl g))
      ]
]

-- what the reading of the fax machines keeps, and what it leaves in the second table
record Compared (g g' : Globals) (infos : List FaxInfo) (num : ℕ) : Type 0 where
  ip : g'.cdr_ip ≡ g.cdr_ip
  port : g'.cdr_port ≡ g.cdr_port
  vpu_id : g'.vpu_id ≡ g.vpu_id
  dev_mac : g'.dev_mac ≡ g.dev_mac
  table : g'.r_fax_infos ≡ infos
  count : g'.r_fax_num ≡ num

compare_faxes-Compared :
    (infos : List FaxInfo) (num : ℕ) (g : Globals)
    → Compared g (compare_faxes infos num g) infos num
unfolding compare_faxes
compare_faxes-Compared infos num g =
    let c : (f : ℕ)
        → Compared g (record g { r_fax_infos = infos; r_fax_num = num; svm_fax_reload = f }) infos
            num =
      (λ f. record {
        ip = refl;
        port = refl;
        vpu_id = refl;
        dev_mac = refl;
        table = refl;
        count = refl;
      }) in
    if_keeps (λ g'. Compared g g' infos num) (g.fax_num == num)
      (if_keeps (λ g'. Compared g g' infos num) (fax_differs g.fax_num 0 infos g.fax_infos) (c 1)
        (c g.svm_fax_reload))
      (c 1)

-- The two loads agree on the CDR receiver, on the file server and on the fax machines.
pub record SameSvm (g1 g2 : Globals) : Type 0 where
  pub cdr_ip : g2.cdr_ip ≡ g1.cdr_ip
  pub cdr_port : g2.cdr_port ≡ g1.cdr_port
  pub server : SameServer g1 g2
  pub faxes : SameTables g1 g2

get_cdr_of :
    (libc : Libc) (tree : Tree) (g0 g : Globals)
    → ((get_cdr_ip_port libc tree g).cdr_ip ≡ (get_cdr_ip_port libc tree g0).cdr_ip)
      × ((get_cdr_ip_port libc tree g).cdr_port ≡ (get_cdr_ip_port libc tree g0).cdr_port)
unfolding get_cdr_ip_port
get_cdr_of libc tree g0 g = (refl, refl)

get_cdr_keeps_ids :
    (libc : Libc) (tree : Tree) (g : Globals)
    → ((get_cdr_ip_port libc tree g).vpu_id ≡ g.vpu_id)
      × ((get_cdr_ip_port libc tree g).dev_mac ≡ g.dev_mac)
unfolding get_cdr_ip_port
get_cdr_keeps_ids libc tree g = (refl, refl)

reload_cdr_keeps_ids :
    (libc : Libc) (tree : Tree) (g : Globals)
    → ((reload_cdr_ip_port libc tree g).vpu_id ≡ g.vpu_id)
      × ((reload_cdr_ip_port libc tree g).dev_mac ≡ g.dev_mac)
unfolding reload_cdr_ip_port
reload_cdr_keeps_ids libc tree g =
    if_keeps {A = Globals} (λ x. (x.vpu_id ≡ g.vpu_id) × (x.dev_mac ≡ g.dev_mac)) _ (refl, refl)
      (refl, refl)

-- Where the start of the process succeeds with a svm file of at most 32 fax entries and an entry for the VPU, a
-- reload of the same file succeeds in whatever state the process is by then, with the same id and MAC address: it
-- makes no write behind the table, leaves the same addresses of the CDR receiver and the file server, and hands the
-- fax threads the same number of machines, with the same id, address and port.
pub reload_svm_conf-SameSvm :
    (libc : Libc) (tree : Tree) (g0 g : Globals) {g1 : Globals} {faxes base : List ConfNode}
    → tree.conf_get_node key_fax ≡ some faxes
    → length faxes ≤ 32
    → tree.conf_get_node key_vpu ≡ some base
    → g.vpu_id ≡ g0.vpu_id
    → g.dev_mac ≡ g0.dev_mac
    → g.cdr_port < 2 ^ 16
    → get_svm_conf libc (some tree) g0 ≡ done g1
    → (g2 : Globals) × (reload_svm_conf libc (some tree) g ≡ done g2) × SameSvm g1 g2
unfolding get_svm_conf reload_svm_conf
reload_svm_conf-SameSvm libc tree g0 g {g1} {faxes} faxnode few node id mac small e =
    let g0' = get_cdr_ip_port libc tree g0 in
    let g' = reload_cdr_ip_port libc tree g in
    let (infos, get, size, each) = get_fax_ip_port-table libc tree g0' faxnode few in
    let (r_infos, rel, r_size, r_each) = reload_fax_ip_port-table libc tree g' faxnode few in
    let ga : Globals = record g0' { fax_infos = infos; fax_num = length faxes } in
    let gb = compare_faxes r_infos (length faxes) g' in
    let c = compare_faxes-Compared r_infos (length faxes) g' in
    let ids0 = get_cdr_keeps_ids libc tree g0 in
    let ids = reload_cdr_keeps_ids libc tree g in
    let cdr = reload_cdr_ip_port-Installed libc tree g small in
    let at : get_server_ip_port libc tree ga ≡ done g1 =
      ap (λ r. and_then r (get_server_ip_port libc tree)) (sym get) ∙ e in
    let k1 : Kept ga g1 = subst (KeptBy ga) at (get_server-KeptBy libc tree ga) in
    let k2 = reload_server-Kept libc tree gb in
    (
      reload_server_ip_port libc tree gb,
      ap (λ r. and_then r (λ x. done (reload_server_ip_port libc tree x))) rel,
      record {
        cdr_ip = k2.cdr_ip ∙ c.ip ∙ cdr.ip ∙ (get_cdr_of libc tree g0 g).0 ∙ sym k1.cdr_ip;
        cdr_port =
            k2.cdr_port ∙ c.port ∙ cdr.port ∙ (get_cdr_of libc tree g0 g).1 ∙ sym k1.cdr_port;
        server =
            reload_server_ip_port-Same libc tree ga gb node (c.vpu_id ∙ ids.0 ∙ id ∙ sym ids0.0)
              (c.dev_mac ∙ ids.1 ∙ mac ∙ sym ids0.1) at;
        faxes = record {
          num = k2.r_fax_num ∙ c.count ∙ sym k1.fax_num;
          each = λ k.
              subst
                (λ l.
                  SameMachine (get_or l k zero_fax)
                    (get_or (reload_server_ip_port libc tree gb).r_fax_infos k zero_fax))
                (sym k1.fax_infos)
                (subst (λ l. SameMachine (get_or infos k zero_fax) (get_or l k zero_fax))
                  (sym (k2.r_fax_infos ∙ c.table))
                  (tables-Same libc faxes infos r_infos each r_each k));
        };
      },
    )
