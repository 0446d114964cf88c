-- ===== src/Conf/FaxReads.antt =====
-- What `get_fax_ip_port` and `reload_fax_ip_port` of src/conf.c read from a file with at most 32 entries.
use mathlib.Core.Path.{subst}
use vpu.Common.{
  ℕ, zero, suc, ◌+◌, ◌≤◌, ◌<◌, ◌≡◌, ◌≢◌, refl, sym, ◌∙◌, ap, inl, inr, true, false, Option, none,
  some, List, [], ◌∷◌, map, arith, if◌then◌else◌, length, get_or, set, replicate, length-set,
  get_or-set_self, get_or-set_ne, Bool-cases, Option-cases, lt→ltb, ◌==◌, eq→==,
}
use vpu.Conf.{
  str_eq, str_eq_refl, key_fax, ConfLeaf, ConfNode, Tree, Libc, FaxInfo, zero_fax, Globals, done,
}
use vpu.Conf.FaxTable.{
  id_name, fax_line, fax_lines, fax_children, no_faxes, get_fax_ip_port, fax_differs, compare_faxes,
  reload_fax_ip_port,
}

abbrev or_old : FaxInfo → Option FaxInfo → FaxInfo
or_old f none = f
or_old f (some f') = f'

-- An entry after its lines, one after the other.
abbrev pub entry : Libc → ℕ → List ConfLeaf → FaxInfo → FaxInfo
entry libc flag [] f = f
entry libc flag (leaf ∷ leaves) f = entry libc flag leaves (or_old f (fax_line libc flag leaf f))

-- One machine for each child, which is blank where the child is not named "id".
abbrev pub machine : Libc → ℕ → ConfNode → FaxInfo
machine libc flag child =
    if str_eq child.val id_name then entry libc flag child.head zero_fax else zero_fax

-- the table with the entry `n` replaced
record Wrote (infos infos' : List FaxInfo) (n : ℕ) (f : FaxInfo) : Type 0 where
  size : length infos' ≡ length infos
  here : get_or infos' n zero_fax ≡ f
  there : (j : ℕ) → n ≢ j → get_or infos' j zero_fax ≡ get_or infos j zero_fax

fax_lines-entry :
    (libc : Libc) (flag n : ℕ) (leaves : List ConfLeaf) (infos : List FaxInfo)
    → n < length infos
    → (infos' : List FaxInfo) × (fax_lines libc flag n leaves infos ≡ some infos')
      × Wrote infos infos' n (entry libc flag leaves (get_or infos n zero_fax))
unfolding fax_lines
fax_lines-entry libc flag n [] infos h =
    (infos, refl, record { size = refl; here = refl; there = λ j ne. refl })
fax_lines-entry libc flag n (leaf ∷ leaves) infos h =
    elim (Option-cases (fax_line libc flag leaf (get_or infos n zero_fax))) [
      | inl skip ↦
          let (infos', e, w) = fax_lines-entry libc flag n leaves infos h in
          (infos', rw (skip, fax_lines) e, rw skip w)
      | inr (f, taken) ↦
          let (infos', e, w) =
            fax_lines-entry libc flag n leaves (set infos n f)
              (omega (arith, length-set infos n f)) in
          (
            infos',
            rw (taken, lt→ltb n (length infos) h, fax_lines) e,
            record {
              size = w.size ∙ length-set infos n f;
              here =
                  rw taken
                    (w.here ∙ ap (entry libc flag leaves) (get_or-set_self infos n f zero_fax h));
              there = λ j ne. w.there j ne ∙ get_or-set_ne infos n j f zero_fax ne;
            },
          )
    ]

-- the table behind the entry `n`: what was there below, and the machines of the children from there on
record Reads (machines infos infos' : List FaxInfo) (n : ℕ) : Type 0 where
  size : length infos' ≡ length infos
  below : (j : ℕ) → j < n → get_or infos' j zero_fax ≡ get_or infos j zero_fax
  above : (k : ℕ) → get_or infos' (n + k) zero_fax ≡ get_or machines k zero_fax

child_step :
    (libc : Libc) (flag n : ℕ) (child : ConfNode) (infos : List FaxInfo)
    → n < length infos
    → get_or infos n zero_fax ≡ zero_fax
    → (infos' : List FaxInfo) × ((if str_eq child.val id_name
          then fax_lines libc flag n child.head infos
          else some infos)
        ≡ some infos')
      × Wrote infos infos' n (machine libc flag child)
child_step libc flag n child infos h blank = elim (Bool-cases (str_eq child.val id_name)) [
  | inl read ↦
      let (infos', e, w) = fax_lines-entry libc flag n child.head infos h in
      (
        infos',
        rw read e,
        record {
          size = w.size;
          here = rw read (w.here ∙ ap (entry libc flag child.head) blank);
          there = w.there;
        },
      )
  | inr skip ↦
      (infos, rw skip refl, record { size = refl; here = rw skip blank; there = λ j ne. refl })
]

fax_children-Reads :
    (libc : Libc) (flag n : ℕ) (children : List ConfNode) (infos : List FaxInfo)
    → n + length children ≤ length infos
    → ((k : ℕ) → get_or infos (n + k) zero_fax ≡ zero_fax)
    → (infos' : List FaxInfo) × (fax_children libc flag n children infos
        ≡ some (infos', n + length children))
      × Reads (map (machine libc flag) children) infos infos' n
unfolding fax_children
fax_children-Reads libc flag n [] infos h blank = (
  infos,
  ap (λ k. some (infos, k)) (omega arith),
  record { size = refl; below = λ j l. refl; above = blank },
)
fax_children-Reads libc flag n (child ∷ children) infos h blank =
    let n0 : n + 0 ≡ n = omega arith in
    let (infos1, e1, w) =
      child_step libc flag n child infos (omega arith)
        (ap (λ k. get_or infos k zero_fax) (sym n0) ∙ blank 0) in
    let step : (k : ℕ) → n + 1 + k ≡ n + suc k = (λ k. omega arith) in
    let blank1 : (k : ℕ) → get_or infos1 (n + 1 + k) zero_fax ≡ zero_fax = (λ k.
      w.there (n + 1 + k) (omega arith)
      ∙ ap (λ j. get_or infos j zero_fax) (step k)
      ∙ blank (suc k)) in
    let (infos', e, r) =
      fax_children-Reads libc flag (n + 1) children infos1 (omega (arith, w.size)) blank1 in
    (
      infos',
      rw (e1, fax_children) (e ∙ ap (λ k. some (infos', k)) (omega arith)),
      record {
        size = r.size ∙ w.size;
        below = λ j l. r.below j (omega arith) ∙ w.there j (omega arith);
        above = above_of w r n0 step;
      },
    )
  where
    above_of :
        {infos1 infos' : List FaxInfo}
        → Wrote infos infos1 n (machine libc flag child)
        → Reads (map (machine libc flag) children) infos1 infos' (n + 1)
        → n + 0 ≡ n
        → ((k : ℕ) → n + 1 + k ≡ n + suc k)
        → (k : ℕ)
        → get_or infos' (n + k) zero_fax
          ≡ get_or (map (machine libc flag) (child ∷ children)) k zero_fax
    above_of {infos' = infos'} w r n0 step zero =
        ap (λ j. get_or infos' j zero_fax) n0 ∙ r.below n (omega arith) ∙ w.here
    above_of {infos' = infos'} w r n0 step (suc k) =
        ap (λ j. get_or infos' j zero_fax) (sym (step k)) ∙ r.above k

-- The same machine, whatever the flag.
pub record SameMachine (a b : FaxInfo) : Type 0 where
  pub id : a.id ≡ b.id
  pub ip : a.ip ≡ b.ip
  pub port : a.port ≡ b.port
  pub fd : a.fd ≡ b.fd

line-Same :
    (libc : Libc) (leaf : ConfLeaf) (a b : FaxInfo)
    → SameMachine a b
    → SameMachine (or_old a (fax_line libc 1 leaf a)) (or_old b (fax_line libc 0 leaf b))
unfolding fax_line
line-Same libc leaf a b s = ground (arith, s.id, s.ip, s.port, s.fd)

entry-Same :
    (libc : Libc) (leaves : List ConfLeaf) (a b : FaxInfo)
    → SameMachine a b
    → SameMachine (entry libc 1 leaves a) (entry libc 0 leaves b)
entry-Same libc [] a b s = s
entry-Same libc (leaf ∷ leaves) a b s = entry-Same libc leaves _ _ (line-Same libc leaf a b s)

SameMachine-refl : (a : FaxInfo) → SameMachine a a
SameMachine-refl a = record { id = refl; ip = refl; port = refl; fd = refl }

machine-Same :
    (libc : Libc) (child : ConfNode) → SameMachine (machine libc 1 child) (machine libc 0 child)
machine-Same libc child = elim (Bool-cases (str_eq child.val id_name)) [
  | inl read ↦ rw read (entry-Same libc child.head zero_fax zero_fax (SameMachine-refl zero_fax))
  | inr skip ↦ rw skip (SameMachine-refl zero_fax)
]

machines-Same :
    (libc : Libc) (children : List ConfNode) (k : ℕ)
    → SameMachine
        (get_or (map (machine libc 1) children) k zero_fax)
        (get_or (map (machine libc 0) children) k zero_fax)
machines-Same libc [] k = SameMachine-refl zero_fax
machines-Same libc (child ∷ children) zero = machine-Same libc child
machines-Same libc (child ∷ children) (suc k) = machines-Same libc children k

blank-table : (n k : ℕ) → get_or (replicate n zero_fax) k zero_fax ≡ zero_fax
blank-table zero k = refl
blank-table (suc n) zero = refl
blank-table (suc n) (suc k) = blank-table n k

-- A file of at most 32 entries: no write behind the table, the number of its entries, and one machine for each.
pub fax_table :
    (libc : Libc) (flag : ℕ) (children : List ConfNode)
    → length children ≤ 32
    → (infos : List FaxInfo) × (fax_children libc flag 0 children no_faxes
        ≡ some (infos, length children))
      × (length infos ≡ 32)
      × ((k : ℕ) → get_or infos k zero_fax ≡ get_or (map (machine libc flag) children) k zero_fax)
fax_table libc flag children h =
    let (infos, e, r) =
      fax_children-Reads libc flag 0 children no_faxes (omega arith)
        (λ k. blank-table 32 (0 + k)) in
    let none_yet : (k : ℕ) → 0 + k ≡ k = (λ k. omega arith) in
    (
      infos,
      e ∙ ap (λ k. some (infos, k)) (none_yet (length children)),
      r.size,
      λ k. ap (λ j. get_or infos j zero_fax) (sym (none_yet k)) ∙ r.above k,
    )

-- a machine of the two tables has the same address
differs-not :
    (n i : ℕ) (r_infos infos : List FaxInfo)
    → ((k : ℕ) → SameMachine (get_or infos k zero_fax) (get_or r_infos k zero_fax))
    → fax_differs n i r_infos infos ≡ false
unfolding fax_differs
differs-not zero i r_infos infos same = refl
differs-not (suc n) i r_infos infos same =
    let s = same i in
    let p : ((get_or r_infos i zero_fax).port == (get_or infos i zero_fax).port) ≡ true =
      eq→== _ _ (sym s.port) in
    rw (p, s.ip, str_eq_refl (get_or r_infos i zero_fax).ip, fax_differs)
      (differs-not n (i + 1) r_infos infos same)

-- what a start and a reload with the same file leave in the two tables
pub record SameTables (g1 g2 : Globals) : Type 0 where
  pub num : g2.r_fax_num ≡ g1.fax_num
  pub each :
      (k : ℕ) → SameMachine (get_or g1.fax_infos k zero_fax) (get_or g2.r_fax_infos k zero_fax)

pub get_fax_ip_port-table :
    (libc : Libc) (tree : Tree) (g : Globals) {children : List ConfNode}
    → tree.conf_get_node key_fax ≡ some children
    → length children ≤ 32
    → (infos : List FaxInfo) × (get_fax_ip_port libc tree g
        ≡ done (record g { fax_infos = infos; fax_num = length children }))
      × (length infos ≡ 32)
      × ((k : ℕ) → get_or infos k zero_fax ≡ get_or (map (machine libc 1) children) k zero_fax)
unfolding get_fax_ip_port
get_fax_ip_port-table libc tree g {children} node h =
    let (infos, e, size, each) = fax_table libc 1 children h in
    (infos, rw (node, e, get_fax_ip_port) refl, size, each)

pub reload_fax_ip_port-table :
    (libc : Libc) (tree : Tree) (g : Globals) {children : List ConfNode}
    → tree.conf_get_node key_fax ≡ some children
    → length children ≤ 32
    → (infos : List FaxInfo) × (reload_fax_ip_port libc tree g
        ≡ done (compare_faxes infos (length children) g))
      × (length infos ≡ 32)
      × ((k : ℕ) → get_or infos k zero_fax ≡ get_or (map (machine libc 0) children) k zero_fax)
unfolding reload_fax_ip_port
reload_fax_ip_port-table libc tree g {children} node h =
    let (infos, e, size, each) = fax_table libc 0 children h in
    (infos, rw (node, e, reload_fax_ip_port) refl, size, each)

-- the tables that the two functions read from the same children
pub tables-Same :
    (libc : Libc) (children : List ConfNode) (infos r_infos : List FaxInfo)
    → ((k : ℕ) → get_or infos k zero_fax ≡ get_or (map (machine libc 1) children) k zero_fax)
    → ((k : ℕ) → get_or r_infos k zero_fax ≡ get_or (map (machine libc 0) children) k zero_fax)
    → (k : ℕ) → SameMachine (get_or infos k zero_fax) (get_or r_infos k zero_fax)
tables-Same libc children infos r_infos each r_each k =
    subst (λ a. SameMachine a (get_or r_infos k zero_fax)) (sym (each k))
      (subst (SameMachine (get_or (map (machine libc 1) children) k zero_fax)) (sym (r_each k))
        (machines-Same libc children k))
