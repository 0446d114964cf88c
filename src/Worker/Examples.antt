-- ===== src/Worker/Examples.antt =====
-- Two packets of one call through src/vpu_worker.c, at rings of two slots; and tests.
use vpu.Common.{◌≡◌, refl, none, some, true, [], ◌∷◌, ◌++◌, arith, replicate}
use vpu.Fifo.{PktNode, NodeRef, pkt_fifo_put, pkt_fifo_get, init_fifo}
use vpu.Dirs.{FileDirs}
use vpu.Voice.{length-zero_data}
use vpu.Voice.Tables.{AllInBounds}
use vpu.Voice.Slots.{Slot, init_voice_file, worker_of}
use vpu.Voice.Parser.{Env, Voices}
use vpu.Worker.{
  System, Captured, capture, get, Reach, start, next, lane, io_step, after_capture, fetch,
  after_fetch, fetch_step, handle, is_other, init_system,
}
use vpu.Worker.Runs.{SystemOk, runs-SystemOk, capture_is_safe}
use vpu.Worker.Own.{handle-own}
use vpu.Worker.Device.{Device}

abbrev voices : Voices
voices = record {
  table = init_voice_file;
  count = record {
    call_start = 0;
    call_end = 0;
    call_online = 0;
    call_timeout = 0;
    file_ok = 0;
    file_fail = 0;
    fax_lost = 0;
    fax_enqueue = 0;
  };
  out = [];
}

abbrev no_dirs : FileDirs
no_dirs = record { dirs = []; num = 0 }

-- a frame of a call at time slot 3, without voice
abbrev frame : PktNode
frame = record {
  pkt =
      replicate 12 0 ++ (0x80 ∷ 0x52 ∷ 0 ∷ 0 ∷ 3 ∷ 0 ∷ 0 ∷ 0 ∷ 0 ∷ 0x80 ∷ 1 ∷ []) ++ replicate 37 0;
  pkt_len = 60;
}

frame-Captured : Captured frame
frame-Captured = record { has_callid = omega arith; fits = omega arith; there = omega arith }

voices-InBounds : AllInBounds voices.table
unfolding init_voice_file
voices-InBounds s = ground (arith, length-zero_data)

abbrev s0 : System
s0 = init_system 2 voices no_dirs

capture_is_safe_test : (t : System) × (io_step frame s0 ≡ some t) × SystemOk t
capture_is_safe_test =
    capture_is_safe 2 voices no_dirs frame (omega arith) (omega arith) voices-InBounds start
      frame-Captured

-- the frame is in ring 3, and worker 3 has fetched it
abbrev captured : System
captured = elim (io_step frame s0) [ none ↦ s0 | some t ↦ t ]

abbrev fetched : System
fetched = fetch_step 3 captured

abbrev node : NodeRef
node = record { slot = 0; pkt_len = 60 }

captured_test : io_step frame s0 ≡ some captured
unfolding io_step after_capture pkt_fifo_put init_system init_fifo worker_of
captured_test = refl

idle_test : (lane 3 captured).held ≡ none
unfolding io_step after_capture pkt_fifo_put init_system init_fifo worker_of
idle_test = refl

busy_test : (lane 3 fetched).held ≡ some node
unfolding io_step after_capture pkt_fifo_put pkt_fifo_get init_system init_fifo worker_of fetch_step
    fetch after_fetch
busy_test = refl

to_fetched : Reach s0 fetched
to_fetched =
    next (next start (capture frame frame-Captured captured_test)) (get 3 (omega arith) idle_test)

runs-SystemOk_example : SystemOk fetched
runs-SystemOk_example =
    runs-SystemOk 2 voices no_dirs (omega arith) (omega arith) voices-InBounds to_fetched

abbrev env : Env
env = record {
  now = 10;
  start_time = 10;
  files = record { filename = some 1; fopen_up = some 11; fopen_down = some 12 };
  free_node = some 40;
  player_full = true;
  player_end = true;
}

-- a slot of worker 4
abbrev elsewhere : Slot
elsewhere = record { sr155_no = 0; e1_no = 0; ts_no = 12 }

handle-own_example :
    (handle 3 env node fetched).voices.table elsewhere ≡ fetched.voices.table elsewhere
handle-own_example =
    handle-own 2 voices no_dirs 3 env node elsewhere (omega arith) (omega arith) voices-InBounds
      to_fetched (omega arith) busy_test (λ e. absurd (omega arith))

-- the parser is reached: the call starts
handle_test : (handle 3 env node fetched).voice_pkts ≡ 1
unfolding io_step after_capture pkt_fifo_put pkt_fifo_get init_system init_fifo worker_of fetch_step
    fetch after_fetch handle is_other
handle_test = refl

-- a device that has been configured anew
abbrev reloaded : Device
reloaded = record { dev = some (1 ∷ []); vpu_dev_reload = 1 }
