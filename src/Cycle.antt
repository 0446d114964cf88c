-- ===== src/Cycle.antt =====
-- src/cycle_operation.c: the sweep of the slots in `cycle_thread`, the end of the process, and
-- `check_filename`. The disk check of the same thread is in Dirs.
pub mod Sweep
pub mod Names
pub mod Round
pub mod Swept
pub mod Invalid
mod Examples
use vpu.Common.{
  ℕ, zero, suc, ◌+◌, ◌-◌, ◌*◌, ◌%◌, Bool, true, false, Option, none, some, List, [], ◌∷◌, ltb, leb,
  ◌==◌, ◌!=◌, if◌then◌else◌, ◌&&◌, ◌||◌, take, drop, get_or,
}
use vpu.Voice.{World}
use vpu.Voice.Files.{cleanup_file_struct}

-- whether the sweep at the time `tim` cleans a slot up: `tim` and `update_time` are time_t
abbrev pub is_idle : ℕ → World → Bool
is_idle tim w = (w.file.update_time != 0) && leb (w.file.update_time + 60) tim

-- one slot of the sweep of `cycle_thread`, under the slot's mutex
unfoldable pub sweep : ℕ → World → World
sweep tim w =
    if is_idle tim w
    then (let w' = cleanup_file_struct w in
        record w' { file = record (w'.file) { update_time = 0 } })
    else w

-- `svm_signal_flags`, the three flags that the thread looks at
pub record Signals : Type 0 where
  pub kill : Bool
  pub stop : Bool
  pub done : Bool

-- what the thread does about a signal at the end of a round: the flags, and whether it leaves its loop
unfoldable pub end_round : ℕ → Signals → Bool × Signals
end_round call_online s =
    if s.kill || s.stop
    then (if call_online == 0 then (true, record s { done = true }) else (false, s))
    else (false, s)

-- What `check_filename` returns: 0, -1 or -2.
pub data Check : Type 0 where
  valid no_name not_date : Check

-- The first loop of `check_filename`, with fuel: `none` is a run that is not over. The counts are
-- `count` and `num`. At a dash the code goes on to the next round without stepping `p`.
unfoldable pub scan : ℕ → List ℕ → ℕ → ℕ → Option (Option (ℕ × ℕ))
scan zero p count num = none
scan (suc fuel) [] count num = some (some (count, num))
scan (suc fuel) (c ∷ p) count num =
    let stay = scan fuel (c ∷ p) count (num + 1) in
    let step = scan fuel p (count + 1) num in
    if c == 45 then stay else if ltb c 48 || ltb 57 c then some none else step

-- atoi on bytes that are digits
unfoldable pub atoi : List ℕ → ℕ → ℕ
atoi [] acc = acc
atoi (c ∷ s) acc = if ltb c 48 || ltb 57 c then acc else atoi s (acc * 10 + (c - 48))

abbrev pub is_leap : ℕ → Bool
is_leap year = (year % 4 == 0 && year % 100 != 0) || year % 400 == 0

abbrev within : ℕ → ℕ → Bool
within n day = if ltb day 1 then false else leb day n

-- the switch on the month
unfoldable pub day_fits : ℕ → ℕ → ℕ → Bool
day_fits year mon day =
    if mon == 1 || (mon == 3 || (mon == 5 || (mon == 7 || (mon == 8 || (mon == 10 || mon == 12)))))
    then within 31 day
    else if mon == 2
    then (if is_leap year then within 29 day else within 28 day)
    else if mon == 4 || (mon == 6 || (mon == 9 || mon == 11))
    then within 30 day
    else false

-- What stat says of the name: whether it returns 0, and whether `st_mode` (left as it is by a stat
-- that fails) is that of a directory.
pub record Stat : Type 0 where
  pub found : Bool
  pub is_dir : Bool

-- The part of `check_filename` behind the loop; `this_year` is `tp->tm_year + 1900`.
unfoldable pub check_date : ℕ → Stat → List ℕ → ℕ → ℕ → Check
check_date this_year st name count num =
    if (count != 8) || (num != 2)
    then not_date
    else if (if st.found then false else if st.is_dir then false else true)
    then not_date
    else (let year = atoi (take 4 name) 0 in
        let mon = atoi (take 2 (drop 5 name)) 0 in
        let day = atoi (take 2 (drop 8 name)) 0 in
        if ltb (year + 1) this_year || ltb (this_year + 1) year
        then not_date
        else if ltb mon 1 || ltb 12 mon
        then not_date
        else if day_fits year mon day
        then valid
        else not_date)

-- what follows the loop, if it is over
unfoldable pub after_scan : ℕ → Stat → List ℕ → Option (Option (ℕ × ℕ)) → Option Check
after_scan this_year st name none = none
after_scan this_year st name (some none) = some not_date
after_scan this_year st name (some (some (count, num))) =
    some (check_date this_year st name count num)

unfoldable pub check_filename : ℕ → ℕ → Stat → Option (List ℕ) → Option Check
check_filename fuel this_year st none = some no_name
check_filename fuel this_year st (some name) = after_scan this_year st name (scan fuel name 0 0)
