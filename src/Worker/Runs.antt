-- ===== src/Worker/Runs.antt =====
-- What holds of every state that the threads of src/vpu_worker.c can reach, in any order of their steps.
use vpu.Common.{
  if_keeps, replicate, ℕ, zero, suc, ◌+◌, ◌%◌, ◌^◌, ◌<◌, ◌≡◌, inl, inr, refl, ◌∙◌, false, some,
  none, Option, List, [], ◌∷◌, arith, leb, length, get_or, set, get_or-set_self, get_or-set_ne,
  Bool-cases, length-set, not_leb→lt, ◌==◌, ==→eq, not_==→ne,
}
use mathlib.Core.Path.{subst}
use vpu.Fifo.{init_fifo, PktFifo, PktNode, NodeRef, after_put, after_get, oldest}
use vpu.Fifo.Inv.{init_fifo-empty, IsValid, get_total}
use vpu.Fifo.Refine.{put_total}
use vpu.Voice.Tables.{AllInBounds, voice_parser-InBounds}
use vpu.Voice.Parser.{Env, read_le64, Voices, voice_parser}
use vpu.Voice.Slots.{worker_of}
use vpu.Dirs.{FileDirs}
use vpu.Worker.{
  Lane, System, Captured, Step, capture, get, parse, new_dirs, Reach, start, next, lane, set_lane,
  no_lane, add64, after_capture, io_step, after_fetch, init_system, fetch, fetch_step, reload_dirs,
  handle, is_other, bytes_of,
}
use vpu.Worker.Inv.{LaneOk, put-LaneOk, get-LaneOk, drop-LaneOk, init_fifo-LaneOk}

-- the packets of a lane that no counter but `all_pkts` has counted
abbrev weight : Lane → ℕ
weight l = l.fifo.count + elim (l.held) [ none ↦ 0 | some _ ↦ 1 ]

abbrev pub waiting : List Lane → ℕ
waiting [] = 0
waiting (l ∷ ls) = weight l + waiting ls

pub record SystemOk (s : System) : Type 0 where
  pub eight : length s.lanes ≡ 8
  pub each : (i : ℕ) → i < 8 → LaneOk i (lane i s)
  pub bounds : AllInBounds s.voices.table
  pub small : s.all_pkts < 2 ^ 64
  pub account : (s.lost_pkts + s.voice_pkts + s.other_pkts + waiting s.lanes) % 2 ^ 64 ≡ s.all_pkts

waiting-set :
    (ls : List Lane) (i : ℕ) (l : Lane)
    → i < length ls
    → waiting (set ls i l) + weight (get_or ls i no_lane) ≡ waiting ls + weight l
waiting-set [] i l h = absurd (omega arith)
waiting-set (x ∷ ls) zero l h = omega arith
waiting-set (x ∷ ls) (suc i) l h = omega (arith, waiting-set ls i l (omega arith))

each_kept :
    (w : ℕ) (l : Lane) (s : System)
    → length s.lanes ≡ 8
    → ((i : ℕ) → i < 8 → LaneOk i (lane i s))
    → w < 8
    → LaneOk w l
    → (i : ℕ) → i < 8
    → LaneOk i (get_or (set s.lanes w l) i no_lane)
each_kept w l s eight each h lok i k = elim (Bool-cases (w == i)) [
  | inl same ↦
      subst (λ j. LaneOk j (get_or (set s.lanes w l) j no_lane)) (==→eq _ _ same)
        (rw (get_or-set_self s.lanes w l no_lane (omega (arith, eight))) lok)
  | inr other ↦ rw (get_or-set_ne s.lanes w i l no_lane (not_==→ne _ _ other)) (each i k)
]

worker_of_lt : (callid : ℕ) → worker_of callid < 8
unfolding worker_of
worker_of_lt callid = omega arith

idle_weight : (l : Lane) → l.held ≡ none → weight l ≡ l.fifo.count
idle_weight l e = rw e (omega arith)

busy_weight : (l : Lane) {node : NodeRef} → l.held ≡ some node → weight l ≡ l.fifo.count + 1
busy_weight l e = rw e

-- a lane that is replaced by another good one, with the counters right
set_lane-Ok :
    (w : ℕ) (l : Lane) (s : System)
    → w < 8
    → LaneOk w l
    → length s.lanes ≡ 8
    → ((i : ℕ) → i < 8 → LaneOk i (lane i s))
    → AllInBounds s.voices.table
    → (s.lost_pkts + s.voice_pkts + s.other_pkts + waiting s.lanes + weight l) % 2 ^ 64
      ≡ (s.all_pkts + weight (lane w s)) % 2 ^ 64
    → s.all_pkts < 2 ^ 64
    → SystemOk (set_lane w l s)
set_lane-Ok w l s h lok eight each bounds account small = record {
  eight = length-set s.lanes w l ∙ eight;
  each = each_kept w l s eight each h lok;
  bounds = bounds;
  small = small;
  account = omega (arith, waiting-set s.lanes w l (omega arith));
}

after_put-count :
    (f : PktFifo) (node : PktNode)
    → IsValid f
    → f.count < f.size
    → (after_put f node).count ≡ f.count + 1
after_put-count f node v room = omega (arith, v.small)

-- after a capture: no copy outside an object, and a good state
abbrev Captures : Option System → Type 0
Captures none = ⊥
Captures (some t) = SystemOk t

pub capture-Captures :
    (node : PktNode) (s : System) → Captured node → SystemOk s → Captures (io_step node s)
unfolding io_step after_capture
capture-Captures node s c ok =
    let w = worker_of (read_le64 node.pkt 20) in
    let h : w < 8 = worker_of_lt (read_le64 node.pkt 20) in
    let lok = ok.each w h in
    let total = put_total (lane w s).fifo node lok.ring c.fits c.there in
    elim (Bool-cases (leb (lane w s).fifo.size (lane w s).fifo.count)) [
      | inl full ↦
          rw (total, full)
            (set_lane-Ok w (lane w s)
              (record s { all_pkts = add64 s.all_pkts; lost_pkts = add64 s.lost_pkts }) h lok
              ok.eight ok.each ok.bounds (omega (arith, ok.account)) (omega arith))
      | inr room ↦
          rw (total, room)
            (set_lane-Ok w (record (lane w s) { fifo = after_put (lane w s).fifo node })
              (record s { all_pkts = add64 s.all_pkts }) h
              (put-LaneOk w (lane w s) node lok c refl (not_leb→lt _ _ room) (total ∙ rw room refl))
              ok.eight ok.each ok.bounds
              (omega (
                arith,
                ok.account,
                after_put-count (lane w s).fifo node lok.ring (not_leb→lt _ _ room),
              ))
              (omega arith))
    ]

after_get-count :
    (f : PktFifo) → IsValid f → leb f.count 0 ≡ false → (after_get f).count + 1 ≡ f.count
after_get-count f v some_left = ground (arith, v.small, v.count_in)

fetch-Ok : (i : ℕ) (s : System) → i < 8 → (lane i s).held ≡ none → SystemOk s → SystemOk (fetch i s)
unfolding fetch after_fetch
fetch-Ok i s h idle ok =
    let lok = ok.each i h in
    elim (Bool-cases (leb (lane i s).fifo.count 0)) [
      | inl empty ↦
          rw (get_total (lane i s).fifo lok.ring, empty)
            (set_lane-Ok i (lane i s) s h lok ok.eight ok.each ok.bounds (omega (arith, ok.account))
              ok.small)
      | inr some_left ↦
          rw (get_total (lane i s).fifo lok.ring, some_left)
            (set_lane-Ok i
              (record { fifo = after_get (lane i s).fifo; held = some (oldest (lane i s).fifo) }) s
              h (get-LaneOk i (lane i s) some_left lok) ok.eight ok.each ok.bounds
              (omega (
                arith,
                ok.account,
                idle_weight (lane i s) idle,
                after_get-count (lane i s).fifo lok.ring some_left,
              ))
              ok.small)
    ]

fetch_step-Ok :
    (i : ℕ) (s : System) → i < 8 → (lane i s).held ≡ none → SystemOk s → SystemOk (fetch_step i s)
unfolding fetch_step reload_dirs
fetch_step-Ok i s h idle ok =
    let dirs : SystemOk (reload_dirs s) = record {
      eight = ok.eight;
      each = ok.each;
      bounds = ok.bounds;
      small = ok.small;
      account = ok.account;
    } in
    if_keeps SystemOk (s.vpu_dir_reload == 1)
      (if_keeps SystemOk (i == 0) (fetch-Ok i (reload_dirs s) h idle dirs) ok)
      (fetch-Ok i s h idle ok)

handle-Ok :
    (i : ℕ) (env : Env) (node : NodeRef) (s : System)
    → i < 8
    → (lane i s).held ≡ some node
    → SystemOk s
    → SystemOk (handle i env node s)
unfolding handle
handle-Ok i env node s h busy ok =
    let l = lane i s in
    let lok = drop-LaneOk i l (ok.each i h) in
    elim (Bool-cases (is_other (bytes_of l.fifo node) node.pkt_len)) [
      | inl other ↦ rw other (
          set_lane-Ok i (record l { held = none }) (record s { other_pkts = add64 s.other_pkts }) h
            lok ok.eight ok.each ok.bounds (omega (arith, ok.account, busy_weight l busy)) ok.small)
      | inr voice ↦ rw voice (
          set_lane-Ok i (record l { held = none })
            (record s {
              voice_pkts = add64 s.voice_pkts;
              voices = (voice_parser env (bytes_of l.fifo node) node.pkt_len s.voices).1;
            })
            h lok ok.eight ok.each
            (voice_parser-InBounds env (bytes_of l.fifo node) node.pkt_len s.voices ok.bounds)
            (omega (arith, ok.account, busy_weight l busy)) ok.small)
    ]

Step-Ok : {s t : System} → Step s t → SystemOk s → SystemOk t
Step-Ok (capture node c e) ok = subst Captures e (capture-Captures node _ c ok)
Step-Ok (get i h idle) ok = fetch_step-Ok i _ h idle ok
Step-Ok (parse i env node h busy) ok = handle-Ok i env node _ h busy ok
Step-Ok (new_dirs dirs) ok = record {
  eight = ok.eight;
  each = ok.each;
  bounds = ok.bounds;
  small = ok.small;
  account = ok.account;
}

get_or-replicate : (k i : ℕ) (l : Lane) → i < k → get_or (replicate k l) i no_lane ≡ l
get_or-replicate zero i l h = absurd (omega arith)
get_or-replicate (suc k) zero l h = refl
get_or-replicate (suc k) (suc i) l h = get_or-replicate k i l (omega arith)

init_system-Ok :
    (n : ℕ) (voices : Voices) (dirs : FileDirs)
    → 0 < n
    → n < 2147483648
    → AllInBounds voices.table
    → SystemOk (init_system n voices dirs)
unfolding init_system
init_system-Ok n voices dirs h k all = record {
  eight = refl;
  each = λ i l.
      rw (get_or-replicate 8 i (record { fifo = init_fifo n; held = none }) l)
        (init_fifo-LaneOk i n h k);
  bounds = all;
  small = omega arith;
  account = rw (init_fifo-empty n) refl;
}

-- Whatever the order in which the capture thread, the workers and a reload take their steps: every ring stays
-- valid and holds only packets of calls of its own worker, every slot of the table keeps its buffers within their
-- bounds, and `all_pkts` counts each packet once: lost, waiting in a ring, held by a worker, voice or other, modulo
-- 2 ^ 64. Captured packets are of 28 to 2048 bytes, all of them there, and rings have a slot at least.
pub runs-SystemOk :
    (n : ℕ) (voices : Voices) (dirs : FileDirs) {s : System}
    → 0 < n
    → n < 2147483648
    → AllInBounds voices.table
    → Reach (init_system n voices dirs) s
    → SystemOk s
runs-SystemOk n voices dirs h k all start = init_system-Ok n voices dirs h k all
runs-SystemOk n voices dirs h k all (next r st) = Step-Ok st (runs-SystemOk n voices dirs h k all r)

-- In every reachable state the next packet is captured without a copy outside a ring, into a good state.
pub capture_is_safe :
    (n : ℕ) (voices : Voices) (dirs : FileDirs) {s : System} (node : PktNode)
    → 0 < n
    → n < 2147483648
    → AllInBounds voices.table
    → Reach (init_system n voices dirs) s
    → Captured node
    → (t : System) × (io_step node s ≡ some t) × SystemOk t
capture_is_safe n voices dirs {s} node h k all r c =
    Captures-some (io_step node s)
      (capture-Captures node s c (runs-SystemOk n voices dirs h k all r))
  where
    Captures-some : (o : Option System) → Captures o → (t : System) × (o ≡ some t) × SystemOk t
    Captures-some none ok = absurd ok
    Captures-some (some t) ok = (t, refl, ok)
