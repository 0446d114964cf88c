-- ===== src/Fax.antt =====
-- The fax threads: `init_connect` and `fax_pre` of src/fax_decode.c. A thread takes a node from the full queue
-- (src/fax_queue.c), has its two voice buffers decoded, puts the record of the call into the CDR ring
-- (src/send_cdr.c), sends it to a fax machine if it was a fax, and puts the node back into the empty queue.
-- The table of the machines and its reload are variables of src/conf.c. Decoding, connect and send are
-- inputs; a descriptor that is closed is only forgotten here.
pub mod Send
pub mod Rounds
pub mod Moves
pub mod Decoding
mod Examples
use vpu.Common.{
  ℕ, zero, suc, ◌+◌, ◌%◌, ◌^◌, ◌≡◌, Bool, true, false, Option, none, some, List, [], ◌∷◌, ◌++◌, ltb,
  leb, ◌==◌, if◌then◌else◌, ◌&&◌, ◌||◌, not, get_or, set, take, drop, length, map,
}
use vpu.Cdr.{Cdr, CdrList, cdr_insert}
use vpu.Queue.{Ptr, null, Heap, Queue, write, en_queue, fetch_phead}
use vpu.Conf.{Str, str_eq, FaxInfo, zero_fax, Globals}

-- an entry that a reload takes out
abbrev pub blank_fax : FaxInfo
blank_fax = record { id = 0; ip = []; port = 0; fd = none; flag = 0 }

-- memcpy of a string without its zero over another one
abbrev pub over : Str → Str → Str
over new old = new ++ drop (length new) old

-- the test of the reload: memcmp over the length of the new address, and the port
unfoldable pub has_moved : FaxInfo → FaxInfo → Bool
has_moved f r = if str_eq (take (length r.ip) f.ip) r.ip then not (f.port == r.port) else true

-- what the reload does to the entry `i`, of which `f` is the old one and `r` the new one
unfoldable pub reload_entry : ℕ → ℕ → ℕ → FaxInfo → FaxInfo → FaxInfo
reload_entry num r_num i f r =
    if ltb i num && ltb i r_num
    then (if has_moved f r
        then record f { ip = over r.ip f.ip; port = r.port; fd = none; flag = 1 }
        else f)
    else if ltb i num
    then blank_fax
    else if ltb i r_num
    then record { id = r.id; ip = over r.ip f.ip; port = r.port; fd = none; flag = 1 }
    else f

-- the loops of the reload over the table, from the entry `i` on
unfoldable pub reload_entries : ℕ → ℕ → ℕ → List FaxInfo → List FaxInfo → List FaxInfo
reload_entries num r_num i [] rs = []
reload_entries num r_num i (f ∷ fs) rs =
    reload_entry num r_num i f (get_or rs i zero_fax) ∷ reload_entries num r_num (i + 1) fs rs

-- the loop that clears the second table
unfoldable pub clear_entries : ℕ → List FaxInfo → List FaxInfo
clear_entries zero rs = rs
clear_entries (suc n) [] = []
clear_entries (suc n) (r ∷ rs) = blank_fax ∷ clear_entries n rs

-- the block behind `svm_fax_reload == 1`
unfoldable pub reload_connect : Globals → Globals
reload_connect g = record g {
  fax_infos = reload_entries g.fax_num g.r_fax_num 0 g.fax_infos g.r_fax_infos;
  r_fax_infos = clear_entries g.r_fax_num g.r_fax_infos;
  fax_num = g.r_fax_num;
  svm_fax_reload = 0;
}

-- `init_connect` with the results of `cconnect`, one for each machine
unfoldable pub init_connect : ℕ → List (Option ℕ) → List FaxInfo → List FaxInfo
init_connect zero cs fs = fs
init_connect (suc n) cs [] = []
init_connect (suc n) [] (f ∷ fs) = f ∷ init_connect n [] fs
init_connect (suc n) (c ∷ cs) (f ∷ fs) =
    (if f.flag == 1 then (elim (f.fd) [ none ↦ record f { fd = c } | some d ↦ f ]) else f)
    ∷ init_connect n cs fs

-- A round of the sending loop as the system lets it go: what the other threads do to the variables before it,
-- what `cconnect` returns, and whether send takes the whole record.
pub record Try : Type 0 where
  pub others : Globals → Globals
  pub connect : Option ℕ
  pub sent : Bool

-- the descriptor of a machine behind the attempt to connect again, which only the thread 1 makes
unfoldable pub connected : ℕ → Try → FaxInfo → FaxInfo
connected thread t f = elim (f.fd) [
  | some d ↦ f
  | none ↦ if thread == 1 then record f { fd = t.connect } else f
]

-- `fd > 0`
abbrev pub is_open : FaxInfo → Bool
is_open f = elim (f.fd) [ none ↦ false | some d ↦ ltb 0 d ]

-- One attempt at one machine: whether the record is sent, and the machine.
unfoldable pub attempt : ℕ → Try → FaxInfo → Bool × FaxInfo
attempt thread t f =
    if f.flag == 1
    then (let f' = connected thread t f in
        if is_open f'
        then (if t.sent then (true, f') else (false, record f' { fd = none }))
        else (false, f'))
    else (false, f)

-- `m ++`, and back to 0 at the number of machines
unfoldable pub next_fax : ℕ → ℕ → ℕ
next_fax num m = if m + 1 == num then 0 else m + 1

-- How the sending loop ends: it is still going on, it has read behind the table, or it has sent the record
-- or not, with `m` and the variables.
pub data Sending : Type 0 where
  going_on overread : Sending
  ended : Bool → ℕ → Globals → Sending

-- what the other threads, and then the reload, make of the variables before an attempt
unfoldable pub before_try : Try → Globals → Globals
before_try t g = let g' = t.others g in if g'.svm_fax_reload == 1 then reload_connect g' else g'

unfoldable pub send_loop : ℕ → List Try → ℕ → ℕ → Globals → Sending
send_loop thread [] tmp_m m g = going_on
send_loop thread (t ∷ ts) tmp_m m g =
    let g1 = before_try t g in
    let (ok, f) = attempt thread t (get_or g1.fax_infos m zero_fax) in
    let g2 : Globals = record g1 { fax_infos = set g1.fax_infos m f } in
    let m' = next_fax g2.fax_num m in
    let rest = send_loop thread ts tmp_m m' g2 in
    if leb (length g1.fax_infos) m
    then overread
    else if ok
    then ended true m g2
    else if m' == tmp_m
    then ended false m' g2
    else rest
