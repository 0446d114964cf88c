-- ===== src/Fax/Examples.antt =====
-- One node through a fax thread of src/fax_decode.c, at a table with one machine; and tests.
use vpu.Common.{
  ℕ, ◌≡◌, ◌≢◌, zero, suc, get_or, refl, true, false, none, some, List, [], ◌∷◌, arith, replicate,
  ◌==◌, if◌then◌else◌,
}
use vpu.Cdr.{zero_cdr, cdr_init}
use vpu.Queue.{Heap}
use vpu.Queue.Chain.{nil, cons, Holds}
use vpu.Conf.{FaxInfo, zero_fax, Globals}
use vpu.Fax.{Try, overread, send_loop, reload_entry}
use vpu.Fax.Send.{send_loop-overread, reload_entry-installs, reload_entry_misses}
use vpu.Fax.Rounds.{FaxState, Decoded, finished, fax_round}
use vpu.Tones.{SpanDsp, Line, first_line, v17, Frame, frame, bit}
use vpu.Tones.Recording.{Sound}
use vpu.Tones.Stale.{Deaf, QuietSound}
use vpu.Fax.Decoding.{decoded_as, decoding_round, decoding_round-Moved}
use vpu.Fax.Moves.{Calm, Moved, fax_round-Moved}

abbrev machine : FaxInfo
machine = record { id = 1; ip = 49 ∷ 50 ∷ []; port = 7; fd = none; flag = 1 }

abbrev off : FaxInfo
off = record { id = 0; ip = []; port = 0; fd = none; flag = 0 }

abbrev globals : List FaxInfo → ℕ → Globals
globals infos num = record {
  port_sguard = 2000;
  port_ma = 2001;
  dev = [];
  dev_mac = [];
  file_dirs = record { dirs = []; num = 0 };
  r_file_dirs = record { dirs = []; num = 0 };
  file_dir_no = 0;
  vpu_id = 10;
  storage_time = 90;
  disk_left = 5;
  cdr_ip = [];
  cdr_port = 0;
  server_ip = [];
  server_port = 0;
  fax_infos = infos;
  fax_num = num;
  r_fax_infos = [];
  r_fax_num = 0;
  svm_cdr_reload = 0;
  svm_fax_reload = 0;
  svm_vpu_reload = 0;
  dms_sguard_reload = 0;
  dms_ma_reload = 0;
  vpu_dev_reload = 0;
  vpu_dir_reload = 0;
}

abbrev one_machine : Globals
one_machine = globals (machine ∷ replicate 31 off) 1

-- a try that connects and whose send fails
abbrev failing : Try
failing = record { others = λ g. g; connect = some 5; sent = false }

abbrev no_machine : Globals
no_machine = globals (off ∷ off ∷ []) 0

send_loop-overread_test : send_loop 0 (failing ∷ failing ∷ failing ∷ []) 0 0 no_machine ≡ overread
send_loop-overread_test =
    send_loop-overread 0 (failing ∷ failing ∷ failing ∷ []) 0 no_machine
      ((λ g. refl), ((λ g. refl), ((λ g. refl), tt))) (λ e. absurd (omega arith)) all_off refl
      (omega arith) (omega arith)
  where
    all_off : (i : ℕ) → (get_or no_machine.fax_infos i zero_fax).flag ≢ 1
    all_off zero e = absurd (omega arith)
    all_off (suc zero) e = absurd (omega arith)
    all_off (suc (suc i)) e = absurd (omega arith)

reload_entry-installs_test :
    ((reload_entry 1 1 0 machine (record machine { ip = 49 ∷ 51 ∷ 52 ∷ [] })).ip
      ≡ 49 ∷ 51 ∷ 52 ∷ [])
    × ((reload_entry 1 1 0 machine (record machine { ip = 49 ∷ 51 ∷ 52 ∷ [] })).port ≡ 7)
reload_entry-installs_test =
    reload_entry-installs 1 1 0 machine (record machine { ip = 49 ∷ 51 ∷ 52 ∷ [] }) (omega arith)
      (omega arith) (omega arith)

reload_entry_misses_test : reload_entry 1 1 0 machine (record machine { ip = 49 ∷ [] }) ≡ machine
reload_entry_misses_test =
    reload_entry_misses 1 1 0 machine (record machine { ip = 49 ∷ [] }) (omega arith) (omega arith)
      refl refl

-- a heap with the node 8 in the full queue
abbrev heap : Heap
heap a = if a == 8 then some 0 else none

abbrev state : FaxState
state = record {
  fq = record { phead = 8; len = 1 };
  eq = record { phead = 0; len = 0 };
  heap = heap;
  cdr = λ a. record zero_cdr { callid = 77 };
  ring = cdr_init 4;
  globals = one_machine;
  m = 0;
  fax_dequeue = 0;
  fax_yes = 0;
  fax_no = 0;
}

full-Holds : Holds heap (state.fq) (8 ∷ [])
full-Holds = record { chain = cons (λ e. absurd (omega arith)) refl refl nil; count = refl }

empty-Holds : Holds heap (state.eq) []
empty-Holds = record { chain = nil; count = refl }

abbrev decoded : Decoded
decoded = record { up = false; down = true; tries = failing ∷ [] }

decoded-Calm : Calm decoded state
decoded-Calm = record {
  quiet = ((λ g. refl), tt);
  no_reload = λ e. absurd (omega arith);
  table = refl;
  few = omega arith;
  here = omega arith;
  tries = omega arith;
}

-- a SpanDSP that hands over a confirmation to receive for each bit 1
abbrev cfr_for : ℕ → List Frame
cfr_for b = if b == 1 then frame (255 ∷ 19 ∷ 0x84 ∷ 0 ∷ []) 4 true ∷ [] else []

abbrev spandsp : SpanDsp
spandsp = record {
  t4_fcd = 0x06;
  t30_dcs = 0x82;
  t30_cfr = 0x84;
  max_dis_dtc_dcs_len = 22;
  max_ident_len = 20;
  sample_rate = 8000;
  frames = λ bits. cfr_for;
  page_ends = λ calls b. false;
}

abbrev confirmed : Sound
confirmed = record {
  made = true;
  info = some (record { samplerate = 8000; channels = 1 });
  t4_init = true;
  chunks =
      record {
        v21_signals = bit 0 ∷ bit 1 ∷ [];
        v17_signals = [];
        v29_signals = [];
        v27ter_signals = [];
      }
      ∷ [];
  closed = true;
  picture = false;
}

confirmed-QuietSound : QuietSound confirmed
confirmed-QuietSound = record {
  quiet = (record { v17_quiet = tt; v29_quiet = tt; v27ter_quiet = tt }, tt);
  no_picture = refl;
}

abbrev deaf_line : Line
deaf_line = record first_line { fast_trained = some v17; t4_up = true }

fax_round-Moved_example :
    (t : FaxState) × (fax_round 1 decoded state ≡ finished t) × Moved decoded state t 8 [] []
fax_round-Moved_example =
    fax_round-Moved 1 decoded state 8 [] [] full-Holds empty-Holds (λ a inside. refl) decoded-Calm

-- A confirmation to receive for a thread that a page cut off has left deaf.
decoding_round-Moved_example :
    (t : FaxState) × (l' : Line) × (decoding_round spandsp 1 confirmed confirmed
        (failing ∷ [])
        deaf_line
        state
      ≡ some (finished t, l'))
    × Moved (decoded_as false (failing ∷ [])) state t 8 [] []
    × (t.globals ≡ state.globals)
    × Deaf v17 l'
decoding_round-Moved_example =
    decoding_round-Moved spandsp v17 1 confirmed confirmed (failing ∷ []) deaf_line state 8 [] []
      (record { stays = refl; mode = refl; flag = refl }) confirmed-QuietSound confirmed-QuietSound
      full-Holds empty-Holds (λ a inside. refl)
      (record {
        quiet = ((λ g. refl), tt);
        no_reload = λ e. absurd (omega arith);
        table = refl;
        few = omega arith;
        here = omega arith;
        tries = omega arith;
      })
