-- ===== src/Voice/Naming.antt =====
-- `get_filename` of src/voice_parser.c: where the two files of a call go. A name is kept as its parts; whether stat
-- finds a regular file of a name, and `localtime_r`, are arguments.
use vpu.Common.{
  ◌≢◌, ◌⊎◌, ℕ, zero, suc, ◌+◌, ◌/◌, ◌%◌, ◌^◌, ◌<◌, ◌≤◌, ◌≡◌, refl, inl, inr, Bool, true, false,
  Option, none, some, List, [], ◌∷◌, ◌++◌, arith, ◌==◌, if◌then◌else◌, not, get_or, take,
  Option-cases, Bool-cases, ==→eq, not_==→ne,
}
use mathlib.Core.Path.{subst, ap}
use vpu.Voice.{VoiceFile}
use vpu.Voice.Slots.{slot_of}
use vpu.Dirs.{FileDirs, DirNode, zero_dir, get_root_dir, writable}
use vpu.Dirs.Root.{Answers, get_root_dir_finds}
use vpu.Conf.{Str}
use vpu.Conf.DayDirs.{Dir, Day, Date, ts_dir, day_of, day_list, ts_list, e1_list}

-- the directory, the call id in hexadecimal, and "_up" or "_down"
pub record VoiceName : Type 0 where
  pub dir : Dir
  pub callid : ℕ
  pub is_up : Bool

unfoldable pub name_in : Date → VoiceFile → Str → Bool → VoiceName
name_in date file root is_up = record {
  dir =
      ts_dir (day_of root (not (file.case_mark == 0)) date) (slot_of file.callid).e1_no
        (slot_of file.callid).ts_no;
  callid = file.callid;
  is_up = is_up;
}

-- the first directory that holds an up file of the name already
unfoldable pub find_existing : (VoiceName → Bool) → Date → VoiceFile → List DirNode → Option DirNode
find_existing is_file date file [] = none
find_existing is_file date file (node ∷ nodes) =
    let rest = find_existing is_file date file nodes in
    if is_file (name_in date file node.dir_name true) then some node else rest

-- -1, -2, and 0 with the disk number and the two names; and the search of `get_root_dir` still going on
pub data Named : Type 0 where
  no_call no_dir searching : Named
  named : ℕ → VoiceName → VoiceName → Named

abbrev pub named_in : Date → VoiceFile → DirNode → Named
named_in date file node =
    named node.disk_num (name_in date file node.dir_name true)
      (name_in date file node.dir_name false)

-- the result of `get_root_dir` as `get_filename` takes it
unfoldable pub from_root : Date → FileDirs → VoiceFile → Option (Option ℕ) → Named
from_root date d file none = searching
from_root date d file (some none) = no_dir
from_root date d file (some (some i)) = named_in date file (get_or d.dirs i zero_dir)

-- what follows for a call whose date is known
unfoldable pub choose_dir : (VoiceName → Bool) → Date → FileDirs → ℕ → VoiceFile → Named × ℕ
choose_dir is_file date d file_dir_no file =
    let (root, file_dir_no') = get_root_dir d file_dir_no in
    let existing =
      if file.data_mark == 1 then none else find_existing is_file date file (take d.num d.dirs) in
    elim existing [
      | some node ↦ (named_in date file node, file_dir_no)
      | none ↦ (from_root date d file root, file_dir_no')
    ]

-- the second at which the call began
abbrev pub began : VoiceFile → ℕ
began file = file.callid / 2 ^ 32 % 2 ^ 32

-- `get_filename`, with `file_dir_no` behind it; `localtime_r` may give no date
unfoldable pub get_filename :
    (VoiceName → Bool) → (ℕ → Option Date) → FileDirs → ℕ → VoiceFile → Named × ℕ
get_filename is_file date_of d file_dir_no file =
    if file.callid == 0 then (no_call, file_dir_no) else elim (date_of (began file)) [
      | none ↦ (no_call, file_dir_no)
      | some date ↦ choose_dir is_file date d file_dir_no file
    ]

-- the place of a directory in a list
pub data In (d : Dir) : List Dir → Type 0 where
  here : {ds : List Dir} → In d (d ∷ ds)
  there : {x : Dir} {ds : List Dir} → In d ds → In d (x ∷ ds)

In-front : {d : Dir} {xs : List Dir} (ys : List Dir) → In d xs → In d (xs ++ ys)
In-front ys here = here
In-front ys (there i) = there (In-front ys i)

In-behind : {d : Dir} (xs : List Dir) {ys : List Dir} → In d ys → In d (xs ++ ys)
In-behind [] i = i
In-behind (x ∷ xs) i = there (In-behind xs i)

ts_list-In :
    (n : ℕ) (day : Day) (i j ts : ℕ)
    → j ≤ ts
    → ts < j + n
    → In (ts_dir day i ts) (ts_list n day i j)
ts_list-In zero day i j ts h k = absurd (omega arith)
ts_list-In (suc n) day i j ts h k = elim (Bool-cases (j == ts)) [
  | inl e ↦ subst (λ x. In (ts_dir day i x) (ts_list (suc n) day i j)) (==→eq _ _ e) here
  | inr ne ↦ there (ts_list-In n day i (j + 1) ts (omega (arith, not_==→ne _ _ ne)) (omega arith))
]

e1_list-In :
    (n : ℕ) (day : Day) (i e1 ts : ℕ)
    → i ≤ e1
    → e1 < i + n
    → ts < 32
    → In (ts_dir day e1 ts) (e1_list n day i)
e1_list-In zero day i e1 ts h k l = absurd (omega arith)
e1_list-In (suc n) day i e1 ts h k l = elim (Bool-cases (i == e1)) [
  | inl e ↦
      subst (λ x. In (ts_dir day x ts) (e1_list (suc n) day i)) (==→eq _ _ e)
        (there
          (In-front (e1_list n day (i + 1)) (ts_list-In 32 day i 0 ts (omega arith) (omega arith))))
  | inr ne ↦ there (
      In-behind (ts_list 32 day i 0)
        (e1_list-In n day (i + 1) e1 ts (omega (arith, not_==→ne _ _ ne)) (omega arith) l))
]

-- `i` is the index of a directory of the table.
abbrev pub OfTable : FileDirs → DirNode → Type 0
OfTable d node = (i : ℕ) × (i < d.num) × (get_or d.dirs i zero_dir ≡ node)

-- What the names are for a call that has an id and a date: both lie in a directory of the day's list below a root of
-- the table, whose disk is the one that is noted, and they differ only in the ending.
abbrev pub PlacedOn : Date → FileDirs → VoiceFile → Named → Type 0
PlacedOn date d file no_call = ⊥
PlacedOn date d file no_dir = (i : ℕ) → i < d.num → writable d i ≡ false
PlacedOn date d file searching = ⊥
PlacedOn date d file (named disk up down) =
    (node : DirNode) × OfTable d node
    × (disk ≡ node.disk_num)
    × In up.dir (day_list (day_of node.dir_name (not (file.case_mark == 0)) date))
    × (up.callid ≡ file.callid)
    × (up.is_up ≡ true)
    × (down ≡ record up { is_up = false })

-- With an id and a date the call is named; else there is no name, and `file_dir_no` is as before.
abbrev pub Placed : (ℕ → Option Date) → FileDirs → ℕ → VoiceFile → Named × ℕ → Type 0
Placed date_of d file_dir_no file r =
    ((file.callid ≢ 0)
      × (date : Date) × (date_of (began file) ≡ some date)
      × PlacedOn date d file r.0)
    ⊎ ((file.callid ≡ 0 ⊎ (date_of (began file) ≡ none)) × (r ≡ (no_call, file_dir_no)))

named_in-PlacedOn :
    (date : Date) (d : FileDirs) (file : VoiceFile) (node : DirNode)
    → OfTable d node
    → PlacedOn date d file (named_in date file node)
unfolding name_in
named_in-PlacedOn date d file node of_table = (
  node,
  of_table,
  refl,
  there (
      e1_list-In 64 _ 0 (slot_of file.callid).e1_no (slot_of file.callid).ts_no (omega arith)
        (omega arith) (omega arith)),
  refl,
  refl,
  refl,
)

from_root-PlacedOn :
    (date : Date) (d : FileDirs) (file : VoiceFile) (r : Option (Option ℕ))
    → Answers d r
    → PlacedOn date d file (from_root date d file r)
unfolding from_root
from_root-PlacedOn date d file none a = a
from_root-PlacedOn date d file (some none) a = a
from_root-PlacedOn date d file (some (some i)) a =
    named_in-PlacedOn date d file (get_or d.dirs i zero_dir) (i, a.0, refl)

at_front : (x : DirNode) {node : DirNode} → some x ≡ some node → x ≡ node
at_front x e = ap (λ q. elim q [ none ↦ x | some y ↦ y ]) e

-- the directory that `find_existing` finds is one of those it looks through
find_existing-found :
    (is_file : VoiceName → Bool) (date : Date) (file : VoiceFile) (n : ℕ) (dirs : List DirNode)
    (node : DirNode)
    → find_existing is_file date file (take n dirs) ≡ some node
    → (i : ℕ) × (i < n) × (get_or dirs i zero_dir ≡ node)
unfolding find_existing
find_existing-found is_file date file zero dirs node e = absurd (ground arith)
find_existing-found is_file date file (suc n) [] node e = absurd (ground arith)
find_existing-found is_file date file (suc n) (x ∷ dirs) node e =
    elim (Bool-cases (is_file (name_in date file x.dir_name true))) [
      | inl found ↦ (0, omega arith, at_front x (rw (find_existing, found) at e))
      | inr later ↦
          let (i, inside, at) = find_existing-found is_file date file n dirs node (rw later at e) in
          (suc i, omega arith, at)
    ]

choose_dir-PlacedOn :
    (is_file : VoiceName → Bool) (date : Date) (d : FileDirs) (file_dir_no : ℕ) (file : VoiceFile)
    → 0 < d.num
    → d.num < 2147483648
    → PlacedOn date d file (choose_dir is_file date d file_dir_no file).0
unfolding choose_dir
choose_dir-PlacedOn is_file date d file_dir_no file some_dir few =
    elim (Bool-cases (file.data_mark == 1)) [
      | inl new ↦ rw (new, choose_dir) root
      | inr old ↦ elim (Option-cases (find_existing is_file date file (take d.num d.dirs))) [
        | inl nowhere ↦ rw (old, nowhere, choose_dir) root
        | inr (node, found) ↦
            rw (old, found, choose_dir)
              (named_in-PlacedOn date d file node
                (find_existing-found is_file date file d.num d.dirs node found))
      ]
    ]
  where
    root : PlacedOn date d file (from_root date d file (get_root_dir d file_dir_no).0)
    root = from_root-PlacedOn date d file _ (get_root_dir_finds d file_dir_no some_dir few)

-- A call that has an id and a date is named, unless no directory of the table may be written: its two files go into
-- one directory that `create_file_dirs` makes for the day on which the call began, below a root of the table whose disk
-- is noted, and their names differ only in the ending. A call without an id, or whose date `localtime_r`
-- does not give, gets no name. The table has a directory, and less than 2 ^ 31.
pub get_filename-Placed :
    (is_file : VoiceName → Bool) (date_of : ℕ → Option Date) (d : FileDirs) (file_dir_no : ℕ)
    (file : VoiceFile)
    → 0 < d.num
    → d.num < 2147483648
    → Placed date_of d file_dir_no file (get_filename is_file date_of d file_dir_no file)
unfolding get_filename
get_filename-Placed is_file date_of d file_dir_no file some_dir few =
    elim (Bool-cases (file.callid == 0)) [
      | inl no_id ↦ inr (inl (==→eq _ _ no_id), rw (no_id, get_filename) refl)
      | inr id ↦ elim (Option-cases (date_of (began file))) [
        | inl undated ↦ inr (inr undated, rw (id, undated, get_filename) refl)
        | inr (date, dated) ↦ inl (
          not_==→ne _ _ id,
          date,
          dated,
          rw (id, dated, get_filename)
              (choose_dir-PlacedOn is_file date d file_dir_no file some_dir few),
        )
      ]
    ]
