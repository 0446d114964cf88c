-- ===== src/Conf/ServerAddr.antt =====
-- The address of the file server: `get_server_ip_port` and `reload_server_ip_port` of src/conf.c, which read
-- the entry of this VPU's id and check that it is meant for this machine's MAC address.
use mathlib.Core.Path.{subst}
use vpu.Common.{
  sym, and_left, and_right, ==→eq, Option-cases, ◌≡◌, ◌⊎◌, refl, inl, inr, Bool-cases, ℕ, Bool,
  true, false, Option, none, some, List, [], ◌∷◌, ◌==◌, leb, if◌then◌else◌, ◌&&◌, ◌||◌, not, length,
}
use vpu.Conf.{
  Str, str_eq, str_eq→eq, key_vpu, ConfLeaf, ConfNode, Tree, Libc, Globals, Run, done, exited,
  overrun,
}
use vpu.Conf.FaxTable.{id_name, ip_name, port_name}

-- "mac"
abbrev pub mac_name : Str
mac_name = 109 ∷ 97 ∷ 99 ∷ []

-- what the loops have read so far
pub record Found : Type 0 where
  pub ip : Str
  pub port : ℕ
  pub mac : List ℕ
  pub id_flag : Bool

-- how a line ends: the loop goes on, is left by `break`, or the process exits
pub data Verdict : Type 0 where
  go_on : Found → Verdict
  break_off : Found → Verdict
  quit : Verdict

-- One line of an entry. A wrong MAC address ends the process at the start (`reload` is false), and the
-- entry in a reload.
unfoldable pub server_line : Bool → Libc → ℕ → List ℕ → ConfLeaf → Found → Verdict
server_line reload libc vpu_id dev_mac leaf r =
    if str_eq leaf.name id_name
    then (let id = libc.atoi leaf.val in
        if id == 0 || not (id == vpu_id) then break_off r else go_on (record r { id_flag = true }))
    else if str_eq leaf.name mac_name
    then (let mac = libc.sscanf_mac leaf.val r.mac in
        if str_eq mac dev_mac
        then go_on (record r { mac = mac })
        else if reload
        then break_off (record r { mac = mac })
        else quit)
    else if str_eq leaf.name ip_name
    then (if leb 16 (length leaf.val) then go_on r else go_on (record r { ip = leaf.val }))
    else if str_eq leaf.name port_name
    then go_on (record r { port = libc.atoi leaf.val })
    else go_on r

-- the lines of an entry; `none` is the exit
unfoldable pub server_lines : Bool → Libc → ℕ → List ℕ → List ConfLeaf → Found → Option Found
server_lines reload libc vpu_id dev_mac [] r = some r
server_lines reload libc vpu_id dev_mac (leaf ∷ leaves) r =
    elim (server_line reload libc vpu_id dev_mac leaf r) [
      | go_on r' ↦ server_lines reload libc vpu_id dev_mac leaves r'
      | break_off r' ↦ some r'
      | quit ↦ none
    ]

-- the entries
unfoldable pub server_children : Bool → Libc → ℕ → List ℕ → List ConfNode → Found → Option Found
server_children reload libc vpu_id dev_mac [] r = some r
server_children reload libc vpu_id dev_mac (child ∷ children) r =
    elim (if str_eq child.val id_name
      then server_lines reload libc vpu_id dev_mac child.head r
      else some r) [
        | none ↦ none
        | some r' ↦ server_children reload libc vpu_id dev_mac children r'
      ]

abbrev pub nothing_found : Found
nothing_found = record { ip = []; port = 0; mac = 0 ∷ 0 ∷ 0 ∷ 0 ∷ 0 ∷ 0 ∷ []; id_flag = false }

unfoldable pub get_server_ip_port : Libc → Tree → Globals → Run
get_server_ip_port libc tree g = elim (tree.conf_get_node key_vpu) [
  | none ↦ done g
  | some base ↦ elim (server_children false libc g.vpu_id g.dev_mac base nothing_found) [
    | none ↦ exited
    | some r ↦
        if r.id_flag then done (record g { server_ip = r.ip; server_port = r.port }) else exited
  ]
]

-- the end of `reload_server_ip_port`, for an entry that was found
unfoldable pub take_server : Found → Globals → Globals
take_server r g =
    if str_eq r.ip g.server_ip && r.port == g.server_port
    then g
    else record g { server_ip = r.ip; server_port = r.port; svm_vpu_reload = 1 }

unfoldable pub reload_server_ip_port : Libc → Tree → Globals → Globals
reload_server_ip_port libc tree g = elim (tree.conf_get_node key_vpu) [
  | none ↦ g
  | some base ↦ elim (server_children true libc g.vpu_id g.dev_mac base nothing_found) [
    | none ↦ g
    | some r ↦ if r.id_flag then take_server r g else g
  ]
]

-- a line that does not end the process at the start is read in the same way by a reload
line-reload :
    (libc : Libc) (vpu_id : ℕ) (dev_mac : List ℕ) (leaf : ConfLeaf) (r : Found)
    → (server_line false libc vpu_id dev_mac leaf r ≡ quit)
      ⊎ (server_line true libc vpu_id dev_mac leaf r ≡ server_line false libc vpu_id dev_mac leaf r)
unfolding server_line
line-reload libc vpu_id dev_mac leaf r = elim (Bool-cases (str_eq leaf.name id_name)) [
  | inl e ↦ inr (rw e refl)
  | inr ne ↦ elim (Bool-cases (str_eq leaf.name mac_name)) [
    | inr no_mac ↦ inr (rw (ne, no_mac) refl)
    | inl is_mac ↦ elim (Bool-cases (str_eq (libc.sscanf_mac leaf.val r.mac) dev_mac)) [
      | inl ours ↦ inr (rw (ne, is_mac, ours) refl)
      | inr other ↦ inl (rw (ne, is_mac, other) refl)
    ]
  ]
]

lines-reload :
    (libc : Libc) (vpu_id : ℕ) (dev_mac : List ℕ) (leaves : List ConfLeaf) (r : Found)
    → (server_lines false libc vpu_id dev_mac leaves r ≡ none)
      ⊎ (server_lines true libc vpu_id dev_mac leaves r
          ≡ server_lines false libc vpu_id dev_mac leaves r)
unfolding server_lines
lines-reload libc vpu_id dev_mac [] r = inr refl
lines-reload libc vpu_id dev_mac (leaf ∷ leaves) r = elim (line-reload libc vpu_id dev_mac leaf r) [
  | inl e ↦ inl (rw (e, server_lines) refl)
  | inr e ↦
      verdict (server_line false libc vpu_id dev_mac leaf r) refl e
        (λ r'. lines-reload libc vpu_id dev_mac leaves r')
]
  where
    verdict :
        (v : Verdict)
        → server_line false libc vpu_id dev_mac leaf r ≡ v
        → server_line true libc vpu_id dev_mac leaf r ≡ server_line false libc vpu_id dev_mac leaf r
        → ((r' : Found)
            → (server_lines false libc vpu_id dev_mac leaves r' ≡ none)
              ⊎ (server_lines true libc vpu_id dev_mac leaves r'
                  ≡ server_lines false libc vpu_id dev_mac leaves r'))
        → (server_lines false libc vpu_id dev_mac (leaf ∷ leaves) r ≡ none)
          ⊎ (server_lines true libc vpu_id dev_mac (leaf ∷ leaves) r
              ≡ server_lines false libc vpu_id dev_mac (leaf ∷ leaves) r)
    verdict (go_on r') e t ih = rw (t, e, server_lines) (ih r')
    verdict (break_off r') e t ih = inr (rw (t, e, server_lines) refl)
    verdict quit e t ih = inl (rw (e, server_lines) refl)

children-reload :
    (libc : Libc) (vpu_id : ℕ) (dev_mac : List ℕ) (children : List ConfNode) (r : Found)
    → (server_children false libc vpu_id dev_mac children r ≡ none)
      ⊎ (server_children true libc vpu_id dev_mac children r
          ≡ server_children false libc vpu_id dev_mac children r)
unfolding server_children
children-reload libc vpu_id dev_mac [] r = inr refl
children-reload libc vpu_id dev_mac (child ∷ children) r =
    elim (Bool-cases (str_eq child.val id_name)) [
      | inr skip ↦ rw (skip, server_children) (children-reload libc vpu_id dev_mac children r)
      | inl read ↦ elim (lines-reload libc vpu_id dev_mac child.head r) [
        | inl e ↦ inl (rw (read, e, server_children) refl)
        | inr e ↦ elim (Option-cases (server_lines false libc vpu_id dev_mac child.head r)) [
          | inl gone ↦ inl (rw (read, gone, server_children) refl)
          | inr (r', found) ↦
              rw (e, read, found, server_children) (children-reload libc vpu_id dev_mac children r')
        ]
      ]
    ]

-- the same address of the server
abbrev pub SameServer : Globals → Globals → Type 0
SameServer g1 g2 = (g2.server_ip ≡ g1.server_ip) × (g2.server_port ≡ g1.server_port)

take_server-Same :
    (r : Found) (g0 g : Globals)
    → SameServer (record g0 { server_ip = r.ip; server_port = r.port }) (take_server r g)
unfolding take_server
take_server-Same r g0 g = elim (Bool-cases (str_eq r.ip g.server_ip && r.port == g.server_port)) [
  | inr other ↦ rw other (refl, refl)
  | inl same ↦
      rw same (sym (str_eq→eq _ _ (and_left _ _ same)), sym (==→eq _ _ (and_right _ _ same)))
]

-- if the start succeeds, a reload leaves the same address
abbrev Starts : Run → Globals → Type 0
Starts (done g1) g2 = SameServer g1 g2
Starts exited g2 = Unit {0}
Starts overrun g2 = Unit {0}

reload-Starts :
    (libc : Libc) (tree : Tree) (g0 g : Globals) {base : List ConfNode}
    → tree.conf_get_node key_vpu ≡ some base
    → g.vpu_id ≡ g0.vpu_id
    → g.dev_mac ≡ g0.dev_mac
    → Starts (get_server_ip_port libc tree g0) (reload_server_ip_port libc tree g)
unfolding get_server_ip_port reload_server_ip_port take_server
reload-Starts libc tree g0 g {base} node id mac =
    elim (children-reload libc g0.vpu_id g0.dev_mac base nothing_found) [
      | inl gone ↦ rw (node, gone, get_server_ip_port, reload_server_ip_port) tt
      | inr e ↦
          elim (Option-cases (server_children false libc g0.vpu_id g0.dev_mac base nothing_found)) [
            | inl gone ↦ rw (node, gone, get_server_ip_port, reload_server_ip_port) tt
            | inr (r, found) ↦
                rw (node, id, mac, e, found, get_server_ip_port, reload_server_ip_port)
                  (elim (Bool-cases r.id_flag) [
                    | inl ours ↦ rw ours (take_server-Same r g0 g)
                    | inr other ↦ rw other tt
                  ])
          ]
    ]

pub reload_server_ip_port-Same :
    (libc : Libc) (tree : Tree) (g0 g : Globals) {g1 : Globals} {base : List ConfNode}
    → tree.conf_get_node key_vpu ≡ some base
    → g.vpu_id ≡ g0.vpu_id
    → g.dev_mac ≡ g0.dev_mac
    → get_server_ip_port libc tree g0 ≡ done g1
    → SameServer g1 (reload_server_ip_port libc tree g)
reload_server_ip_port-Same libc tree g0 g node id mac e =
    subst (λ r. Starts r (reload_server_ip_port libc tree g)) e
      (reload-Starts libc tree g0 g node id mac)
