-- ===== src/Cycle/Examples.antt =====
-- The theorems on src/cycle_operation.c at one slot, and tests.
use vpu.Common.{
  ◌+◌, ◌-◌, ◌/◌, ℕ, ◌≡◌, ◌≢◌, refl, true, false, some, List, [], ◌∷◌, ◌++◌, arith, replicate,
}
use vpu.Voice.{World, Effect, zero_file}
use vpu.Voice.Slots.{Slot, store, init_voice_file}
use vpu.Conf.DayDirs.{create_all_dirs, create_file_dirs, day_tree, e1_loop, ts_loop}
use vpu.Cycle.Round.{CycleState, cycle_round, change_day, remove_day}
use vpu.Voice.Parser.{Env, Header, locked_part, too_long}
use vpu.Voice.Release.{Released, handed_over}
use vpu.Voice.Accounting.{Ledger}
use vpu.Cycle.{
  Signals, sweep, Stat, valid, not_date, check_filename, day_fits, check_date, atoi, after_scan,
  scan,
}
use vpu.Cycle.Sweep.{sweep-Released, sweep-first_packet, sweep-Ledger}
use vpu.Cycle.Names.{check_filename_never_valid}

-- a call that has been silent since the second 1000
abbrev silent : World
silent = record {
  file = record zero_file {
    callid = 5;
    fp_up = some 11;
    fp_down = some 12;
    cdr_node = some 40;
    update_time = 1000;
  };
  count = record {
    call_start = 1;
    call_end = 0;
    call_online = 1;
    call_timeout = 0;
    file_ok = 1;
    file_fail = 0;
    fax_lost = 0;
    fax_enqueue = 0;
  };
  out = [];
}

abbrev hdr : Header
hdr = record {
  callid = 0x5000_0000_0041_8000;
  calldir = 1;
  ccase = 0;
  data_mark = 1;
  data_no = 1;
  data_len = 2;
}

abbrev env : Env
env = record {
  now = 0x5000_0010;
  start_time = 0x5000_0010;
  files = record { filename = some 1; fopen_up = some 11; fopen_down = some 12 };
  free_node = some 40;
  player_full = true;
  player_end = true;
}

sweep-Released_test :
    Released (sweep 1060 silent).file
    × ((front : List Effect) × ((sweep 1060 silent).out ≡ front ++ handed_over silent.file))
    × ((later : ℕ) → sweep later (sweep 1060 silent) ≡ sweep 1060 silent)
sweep-Released_test = sweep-Released 1060 silent (omega arith) (omega arith)

-- the silent call in a slot of the table, at a file system that keeps nothing
abbrev here : Slot
here = record { sr155_no = 1; e1_no = 2; ts_no = 3 }

abbrev state : CycleState ℕ
state = record {
  last_day = 1;
  voices = record {
    table = store here silent.file init_voice_file;
    count = silent.count;
    out = [];
  };
  dirs = record { dirs = []; num = 0 };
  signals = record { kill = false; stop = false; done = false };
  fs = 0;
}

abbrev after_round : CycleState ℕ
after_round =
    (cycle_round (λ d n. true) (λ d n. (true, n + 1)) (λ d n. n - 1)
      (λ n. record { year = 2026; month = 1; day = 1 }) true 90 5 [] 1060 state).1

-- a new day: a directory of tomorrow for one root, and the old day removed
change_day_test :
    change_day
      (λ d n. false)
      (λ d n. (true, n + 1))
      (λ d n. n - 1)
      (λ n. record { year = 2026; month = 1; day = n / 86400 })
      1
      (record { dirs = record { dir_name = []; disk_num = 0; write_flag = 1 } ∷ []; num = 1 })
      0
      86400
      0
    ≡ 4226
unfolding change_day remove_day create_all_dirs create_file_dirs day_tree e1_loop ts_loop
change_day_test = refl

in_time : too_long env hdr ≡ false
unfolding too_long
in_time = refl

sweep-first_packet_test :
    sweep 0x6000_0000 (locked_part env hdr (replicate 40 1) silent)
    ≡ locked_part env hdr (replicate 40 1) silent
sweep-first_packet_test =
    sweep-first_packet env hdr (replicate 40 1) silent 0x6000_0000 (omega arith) in_time

silent-Ledger : Ledger 0 silent
silent-Ledger = record { online = refl; balance = refl }

sweep-Ledger_test : Ledger 0 (sweep 1060 silent)
sweep-Ledger_test = sweep-Ledger 0 1060 silent silent-Ledger

abbrev stopping : Signals
stopping = record { kill = false; stop = true; done = false }

abbrev online : ℕ
online = 1

-- 2024-02-29
abbrev leap_day : List ℕ
leap_day = 50 ∷ 48 ∷ 50 ∷ 52 ∷ 45 ∷ 48 ∷ 50 ∷ 45 ∷ 50 ∷ 57 ∷ []

abbrev a_dir : Stat
a_dir = record { found = true; is_dir = true }

-- the checks behind the loop would accept the date
check_date_test : check_date 2024 a_dir leap_day 8 2 ≡ valid
unfolding check_date atoi day_fits
check_date_test = refl

-- a name without dashes
check_filename_test : check_filename 9 2024 a_dir (some (replicate 8 50)) ≡ some not_date
unfolding check_filename scan after_scan check_date
check_filename_test = refl

check_filename_never_valid_example : check_filename 1000 2024 a_dir (some leap_day) ≢ some valid
check_filename_never_valid_example = check_filename_never_valid 1000 2024 a_dir (some leap_day)
