-- ===== src/Worker/Own.antt =====
-- A worker of src/vpu_worker.c changes no slot but those of its own calls.
use vpu.Common.{ℕ, ◌<◌, ◌≡◌, ◌≢◌, ◌%◌, refl, false, some, inl, inr, Bool-cases, arith}
use mathlib.Core.Path.{subst}
use mathlib.Core.List.{List}
use vpu.Dirs.{FileDirs}
use vpu.Fifo.{NodeRef}
use vpu.Voice.Tables.{AllInBounds, voice_parser-isolated}
use vpu.Voice.Parser.{Env, Voices}
use vpu.Voice.Slots.{Slot, slot_of, same_slot, worker_of}
use vpu.Worker.{System, Reach, lane, handle, is_other, bytes_of, init_system}
use vpu.Worker.Inv.{HeldMine}
use vpu.Worker.Runs.{runs-SystemOk}

other_slot :
    (callid i : ℕ) (t : Slot)
    → worker_of callid ≡ i
    → t.ts_no % 8 ≢ i
    → same_slot (slot_of callid) t ≡ false
unfolding worker_of
other_slot callid i t mine other = ground arith

long_enough : (pkt : List ℕ) (n : ℕ) → is_other pkt n ≡ false → n ≢ 0
unfolding is_other
long_enough pkt n e = ground arith

-- In every reachable state, a worker that parses the node it has fetched leaves every slot of another worker as it
-- is, even if the ring has been written to since the fetch: no two workers ever write to the same slot.
pub handle-own :
    (n : ℕ) (voices : Voices) (dirs : FileDirs) {s : System} (i : ℕ) (env : Env) (node : NodeRef)
    (t : Slot)
    → 0 < n
    → n < 2147483648
    → AllInBounds voices.table
    → Reach (init_system n voices dirs) s
    → i < 8
    → (lane i s).held ≡ some node
    → t.ts_no % 8 ≢ i
    → (handle i env node s).voices.table t ≡ s.voices.table t
unfolding handle
handle-own n voices dirs {s} i env node t h k all r l busy other =
    let f = (lane i s).fifo in
    let m : HeldMine i f (some node) =
      subst (HeldMine i f) busy ((runs-SystemOk n voices dirs h k all r).each i l).taken in
    elim (Bool-cases (is_other (bytes_of f node) node.pkt_len)) [
      | inl o ↦ rw o refl
      | inr v ↦ rw v (elim m [
        | inl none_read ↦ absurd (long_enough _ _ v none_read)
        | inr mine ↦
            voice_parser-isolated env (bytes_of f node) node.pkt_len s.voices t
              (other_slot _ i t mine other)
      ])
    ]
