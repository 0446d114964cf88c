-- ===== src/Cycle/Sweep.antt =====
-- What the sweep of `cycle_thread` in src/cycle_operation.c does to a slot.
use vpu.Common.{
  ℕ, ◌+◌, ◌≤◌, ◌≡◌, ◌≢◌, refl, true, false, Bool-cases, inl, inr, List, ◌++◌, ◌||◌, arith,
}
use vpu.Voice.{World, Effect}
use vpu.Voice.Files.{cleanup_file_struct}
use vpu.Voice.Parser.{Env, Header, locked_part, too_long}
use vpu.Voice.Release.{Released, handed_over, cleanup-Released}
use vpu.Voice.Accounting.{Ledger, cleanup-Ledger}
use vpu.Voice.Idle.{first_packet-NoTime}
use vpu.Cycle.{is_idle, sweep, Signals, end_round}

pub idle_lem :
    (tim : ℕ) (w : World)
    → w.file.update_time ≢ 0
    → w.file.update_time + 60 ≤ tim
    → is_idle tim w ≡ true
idle_lem tim w set old = ground arith

-- a slot without a time
abbrev untimed : World → World
untimed w = record w { file = record (w.file) { update_time = 0 } }

Released-untimed : (w : World) → Released w.file → Released (untimed w).file
Released-untimed w r = record {
  no_call = r.no_call;
  no_up = r.no_up;
  no_down = r.no_down;
  no_player = r.no_player;
  no_node = r.no_node;
}

Ledger-untimed : (n : ℕ) (w : World) → Ledger n w → Ledger n (untimed w)
Ledger-untimed n w l = record { online = l.online; balance = l.balance }

-- A slot with a time at least a minute old is swept: it then holds no call, no FILE, no player and
-- no fax node, the node, if it had one, is in the fax queue, and no later sweep touches the slot.
pub sweep-Released :
    (tim : ℕ) (w : World)
    → w.file.update_time ≢ 0
    → w.file.update_time + 60 ≤ tim
    → Released (sweep tim w).file
      × ((front : List Effect) × ((sweep tim w).out ≡ front ++ handed_over w.file))
      × ((later : ℕ) → sweep later (sweep tim w) ≡ sweep tim w)
unfolding sweep
sweep-Released tim w set old =
    let e = idle_lem tim w set old in
    let (released, front) = cleanup-Released w in
    let swept = cleanup_file_struct w in
    rw e (Released-untimed swept released, front, λ later. refl)

-- A slot that no packet has reached for less than a minute, or whose time is 0, is left as it is.
pub sweep_idle : (tim : ℕ) (w : World) → is_idle tim w ≡ false → sweep tim w ≡ w
unfolding sweep
sweep_idle tim w e = rw e refl

pub no_time : (tim : ℕ) (w : World) → w.file.update_time ≡ 0 → is_idle tim w ≡ false
no_time tim w e = rw e refl

-- The first packet of a call, unless it is dropped for coming more than five hours late, leaves a slot that
-- no sweep touches, at whatever time: the packet clears the time that it has set.
pub sweep-first_packet :
    (env : Env) (hdr : Header) (pkt : List ℕ) (w : World) (tim : ℕ)
    → w.file.callid ≢ hdr.callid
    → too_long env hdr ≡ false
    → sweep tim (locked_part env hdr pkt w) ≡ locked_part env hdr pkt w
sweep-first_packet env hdr pkt w tim new fresh =
    let w' = locked_part env hdr pkt w in
    sweep_idle tim w' (no_time tim w' (first_packet-NoTime env hdr pkt w new fresh))

-- The sweep keeps the counters in step with the slot.
pub sweep-Ledger : (n tim : ℕ) (w : World) → Ledger n w → Ledger n (sweep tim w)
unfolding sweep
sweep-Ledger n tim w l = elim (Bool-cases (is_idle tim w)) [
  | inl e ↦ rw e (Ledger-untimed n (cleanup_file_struct w) (cleanup-Ledger n w l).0)
  | inr e ↦ rw e l
]

-- The thread leaves its loop only after a signal and with no call online, and then sets SVM_DONE; as long
-- as a call is online it goes on and leaves the flags as they are.
pub end_round-drains :
    (online : ℕ) (s : Signals)
    → (((end_round online s).0 ≡ true
        → (online ≡ 0) × (s.kill || s.stop ≡ true) × ((end_round online s).1.done ≡ true)))
      × (online ≢ 0 → end_round online s ≡ (false, s))
unfolding end_round
end_round-drains online s = ground arith

pub swept_time :
    (tim : ℕ) (w : World)
    → w.file.update_time ≢ 0
    → w.file.update_time + 60 ≤ tim
    → (sweep tim w).file.update_time ≡ 0
unfolding sweep
swept_time tim w set old = rw (idle_lem tim w set old) refl
