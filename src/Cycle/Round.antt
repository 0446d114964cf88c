-- ===== src/Cycle/Round.antt =====
-- A whole round of `cycle_thread` in src/cycle_operation.c: the change of the day, the sweep of all slots, the disk
-- check and the end of the process. The file system and `localtime_r` are arguments; `rm -rf` of a directory is one.
use vpu.Common.{
  ℕ, zero, suc, ◌+◌, ◌-◌, ◌*◌, ◌/◌, ◌%◌, ◌^◌, Bool, false, List, [], ◌∷◌, ◌==◌, if◌then◌else◌, take,
}
use vpu.Voice.{World}
use vpu.Voice.Slots.{Slot, store}
use vpu.Voice.Parser.{Voices}
use vpu.Dirs.{FileDirs, DiskInfo, check_disks}
use vpu.Conf.{Str}
use vpu.Conf.DayDirs.{Dir, Date, date_dir, day_of, create_all_dirs}
use vpu.Conf.DirTable.{roots}
use vpu.Cycle.{sweep, Signals, end_round}

-- the slot of a table, with the counters and the effects
abbrev pub world_at : Slot → Voices → World
world_at s v = record { file = v.table s; count = v.count; out = v.out }

-- the sweep of one slot of `voice_file`
unfoldable pub sweep_slot : ℕ → Slot → Voices → Voices
sweep_slot tim s v =
    let w = sweep tim (world_at s v) in
    record { table = store s w.file v.table; count = w.count; out = w.out }

-- the three loops, over the slots in their order
unfoldable pub sweep_all : ℕ → List Slot → Voices → Voices
sweep_all tim [] v = v
sweep_all tim (s ∷ ss) v = sweep_all tim ss (sweep_slot tim s v)

-- the slots of `voice_file[SR155_NUM][E1_NUM][TS_NUM]` in the order of the loops, with `n` slots to go from
-- the slot of number `k`
abbrev pub slots_from : ℕ → ℕ → List Slot
slots_from zero k = []
slots_from (suc n) k =
    record { sr155_no = k / 2048; e1_no = k / 32 % 64; ts_no = k % 32 } ∷ slots_from n (k + 1)

module _ {Fs : Type 0} (is_dir : Dir → Fs → Bool) (mkdir : Dir → Fs → Bool × Fs)
    (rm : Dir → Fs → Fs) where
  -- the loop that removes the directories of an old day, below `normal`
  unfoldable pub remove_day : List Str → Date → Fs → Fs
  remove_day [] d fs = fs
  remove_day (root ∷ rs) d fs =
      let old = date_dir (day_of root false d) in
      remove_day rs d (if is_dir old fs then rm old fs else fs)

  -- What happens on a new day: the directories of tomorrow are made, and those of `storage_time` days ago removed.
  unfoldable pub change_day : (ℕ → Date) → ℕ → FileDirs → ℕ → ℕ → Fs → Fs
  change_day date_of storage_time dirs last_day tim fs =
      if (date_of tim).day == last_day
      then fs
      else remove_day (roots dirs) (date_of (tim - storage_time * 24 * 60 * 60 % 2 ^ 32))
          (create_all_dirs is_dir mkdir (roots dirs) (date_of (tim + 24 * 60 * 60)) fs)

-- what a round works on
pub record CycleState (Fs : Type 0) : Type 0 where
  pub last_day : ℕ
  pub voices : Voices
  pub dirs : FileDirs
  pub signals : Signals
  pub fs : Fs

-- A round, with the time, whether `localtime_r` gives its date, and the answers of statfs: whether the thread leaves its loop, and the state.
unfoldable pub cycle_round :
    {Fs : Type 0}
    → (Dir → Fs → Bool)
    → (Dir → Fs → Bool × Fs)
    → (Dir → Fs → Fs)
    → (ℕ → Date)
    → Bool
    → ℕ
    → ℕ
    → List DiskInfo
    → ℕ
    → CycleState Fs
    → Bool × CycleState Fs
cycle_round is_dir mkdir rm date_of dated storage_time disk_left infos tim s =
    let fs =
      if dated
      then change_day is_dir mkdir rm date_of storage_time s.dirs s.last_day tim s.fs
      else s.fs in
    let voices = sweep_all tim (slots_from 131072 0) s.voices in
    let (over, signals) = end_round voices.count.call_online s.signals in
    (
      over,
      record {
        last_day = if dated then (date_of tim).day else s.last_day;
        voices = voices;
        dirs = record (s.dirs) { dirs = check_disks disk_left (take s.dirs.num infos) s.dirs.dirs };
        signals = signals;
        fs = fs;
      },
    )
