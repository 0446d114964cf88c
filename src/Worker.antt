-- ===== src/Worker.antt =====
-- The threads of src/vpu_worker.c over the rings of src/pkt_fifo.c and the parser of src/voice_parser.c:
-- the capture thread `vpu_io_thread`, eight threads `vpu_worker_thread`, and the hand-over of a new
-- table of directories. A thread's step is what it does between two points where another may come in;
-- a worker that has fetched a node is between `pkt_fifo_get` and the end of `voice_parser`.
-- pcap and nanosleep are outside: a captured packet is an argument.
pub mod Inv
pub mod Runs
pub mod Own
pub mod Device
mod Examples
use vpu.Common.{
  ℕ, ◌+◌, ◌%◌, ◌^◌, ◌<◌, ◌≤◌, ◌≡◌, Bool, Option, none, some, List, ltb, ◌==◌, ◌!=◌, if◌then◌else◌,
  ◌&&◌, ◌||◌, byte_at, get_or, set, length, replicate,
}
use vpu.Fifo.{
  PktFifo, PktNode, PutResult, NodeRef, GetResult, no_data, bad_out, stored, no_space, fetched,
  init_fifo, pkt_fifo_put, pkt_fifo_get, zero_buf, worker_num,
}
use vpu.Voice.Parser.{Voices, Env, voice_parser, read_le64}
use vpu.Voice.Slots.{worker_of}
use vpu.Dirs.{FileDirs}

-- One of `pkt_fifos`, and the node that its worker has fetched and not yet parsed.
pub record Lane : Type 0 where
  pub fifo : PktFifo
  pub held : Option NodeRef

-- What the threads share, with the counters of src/counter.c that they move.
pub record System : Type 0 where
  pub lanes : List Lane
  pub voices : Voices
  pub all_pkts : ℕ
  pub lost_pkts : ℕ
  pub voice_pkts : ℕ
  pub other_pkts : ℕ
  pub file_dirs : FileDirs
  pub r_file_dirs : FileDirs
  pub vpu_dir_reload : ℕ

abbrev pub no_lane : Lane
no_lane = record { fifo = init_fifo 0; held = none }

abbrev pub lane : ℕ → System → Lane
lane i s = get_or s.lanes i no_lane

abbrev pub set_lane : ℕ → Lane → System → System
set_lane i l s = record s { lanes = set s.lanes i l }

abbrev pub add64 : ℕ → ℕ
add64 n = (n + 1) % 2 ^ 64

-- what `vpu_io_thread` does about the result of `pkt_fifo_put` at the ring `w`
unfoldable pub after_capture : ℕ → System → Option (PutResult × PktFifo) → Option System
after_capture w s none = none
after_capture w s (some (stored, f)) = some (set_lane w (record (lane w s) { fifo = f }) s)
after_capture w s (some (no_space, f)) =
    some (set_lane w (record (lane w s) { fifo = f }) (record s { lost_pkts = add64 s.lost_pkts }))

-- One round of `vpu_io_thread` with the packet that pcap_next has returned: the call id at byte 20 says
-- which ring. `none` is a copy outside an object.
unfoldable pub io_step : PktNode → System → Option System
io_step node s =
    let w = worker_of (read_le64 node.pkt 20) in
    after_capture w (record s { all_pkts = add64 s.all_pkts }) (pkt_fifo_put (lane w s).fifo node)

-- the hand-over of the directories, which worker 0 does
unfoldable pub reload_dirs : System → System
reload_dirs s = record s { file_dirs = s.r_file_dirs; vpu_dir_reload = 0 }

-- what worker `i` does about the result of `pkt_fifo_get`: a node is kept, else it sleeps
unfoldable pub after_fetch : ℕ → System → GetResult × PktFifo → System
after_fetch i s (fetched node, f) = set_lane i (record { fifo = f; held = some node }) s
after_fetch i s (no_data, f) = set_lane i (record (lane i s) { fifo = f }) s
after_fetch i s (bad_out, f) = set_lane i (record (lane i s) { fifo = f }) s

unfoldable pub fetch : ℕ → System → System
fetch i s = after_fetch i s (pkt_fifo_get (lane i s).fifo)

-- A round of worker `i` up to the call of `pkt_fifo_get`: while a reload waits, the others sleep.
unfoldable pub fetch_step : ℕ → System → System
fetch_step i s =
    if s.vpu_dir_reload == 1 then (if i == 0 then fetch i (reload_dirs s) else s) else fetch i s

-- the test for packets that are no voice packets, on the bytes behind the node
unfoldable pub is_other : List ℕ → ℕ → Bool
is_other pkt pkt_len =
    ltb pkt_len 36 || (byte_at pkt 12 != 0x80 || (byte_at pkt 13 != 0x52 || byte_at pkt 16 != 0x03))

-- the bytes that the pointer of a node leads to
abbrev pub bytes_of : PktFifo → NodeRef → List ℕ
bytes_of f node = (get_or f.pkt node.slot zero_buf).pkt

-- the rest of the round, for the node that the worker has fetched
unfoldable pub handle : ℕ → Env → NodeRef → System → System
handle i env node s =
    let pkt = bytes_of (lane i s).fifo node in
    let s1 = set_lane i (record (lane i s) { held = none }) s in
    if is_other pkt node.pkt_len then record s1 { other_pkts = add64 s.other_pkts } else record s1 {
      voice_pkts = add64 s.voice_pkts;
      voices = (voice_parser env pkt node.pkt_len s.voices).1;
    }

-- What a captured packet is relied on to be: its length counts bytes that are there, at least those of
-- the call id, and at most those of a slot.
pub record Captured (node : PktNode) : Type 0 where
  pub has_callid : 28 ≤ node.pkt_len
  pub fits : node.pkt_len ≤ 2048
  pub there : node.pkt_len ≤ length node.pkt

-- The steps of the threads. The last one is the thread that has read the configuration again.
pub data Step : System → System → Type 0 where
  capture : {s t : System} (node : PktNode) → Captured node → io_step node s ≡ some t → Step s t
  get : {s : System} (i : ℕ) → i < 8 → (lane i s).held ≡ none → Step s (fetch_step i s)
  parse :
      {s : System} (i : ℕ) (env : Env) (node : NodeRef)
      → i < 8
      → (lane i s).held ≡ some node
      → Step s (handle i env node s)
  new_dirs :
      {s : System} (dirs : FileDirs) → Step s (record s { r_file_dirs = dirs; vpu_dir_reload = 1 })

-- The start: `n` is the number of slots of a ring.
unfoldable pub init_system : ℕ → Voices → FileDirs → System
init_system n voices dirs = record {
  lanes = replicate worker_num (record { fifo = init_fifo n; held = none });
  voices = voices;
  all_pkts = 0;
  lost_pkts = 0;
  voice_pkts = 0;
  other_pkts = 0;
  file_dirs = dirs;
  r_file_dirs = dirs;
  vpu_dir_reload = 0;
}

-- The states that the steps lead to from a start.
pub data Reach (s0 : System) : System → Type 0 where
  start : Reach s0 s0
  next : {s t : System} → Reach s0 s → Step s t → Reach s0 t
