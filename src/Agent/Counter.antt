-- ===== src/Agent/Counter.antt =====
-- `ma_cmd_get_counter` of src/conn_serv.c: the packet with the counters of src/counter.c.
use vpu.Common.{
  ℕ, zero, suc, ◌+◌, ◌*◌, ◌/◌, ◌%◌, ◌^◌, ◌<◌, ◌≡◌, refl, ◌∙◌, ap, some, List, [], ◌∷◌, ◌++◌, arith,
  length, be16, byte_at, drop,
}
use mathlib.Core.Path.{ap₂}
use vpu.Counters.{AllCounters}
use vpu.Agent.{Packet, vpu_fill_info}
use vpu.Agent.Packets.{read_fields, read_fields-info, read_more, last_field}

-- `all_count_t`, in the order of its fields: of numbers, or of the bytes in memory behind htobe64
pub record AllCount (A : Type 0) : Type 0 where
  pub pkts : A
  pub lost_pkts : A
  pub voice_pkts : A
  pub other_pkts : A
  pub call_start : A
  pub call_end : A
  pub call_timeout : A
  pub file_ok : A
  pub file_fail : A
  pub fax_lost : A
  pub fax_enqueue : A
  pub fax_dequeue : A
  pub fax_yes : A
  pub fax_no : A

-- htobe64, as the bytes in memory
abbrev pub be64 : ℕ → List ℕ
be64 v =
    v / 2 ^ 56 % 256
    ∷ v / 2 ^ 48 % 256
    ∷ v / 2 ^ 40 % 256
    ∷ v / 2 ^ 32 % 256
    ∷ v / 2 ^ 24 % 256
    ∷ v / 65536 % 256
    ∷ v / 256 % 256
    ∷ v % 256
    ∷ []

-- The fourteen loads, one after the other: `at i` are the counters when the load `i` is made.
unfoldable pub load_all : (ℕ → AllCounters) → AllCount ℕ
load_all at = record {
  pkts = (at 0).all_pkts;
  lost_pkts = (at 1).lost_pkts;
  voice_pkts = (at 2).voice_pkts;
  other_pkts = (at 3).other_pkts;
  call_start = (at 4).call_start;
  call_end = (at 5).call_end;
  call_timeout = (at 6).call_timeout;
  file_ok = (at 7).file_ok;
  file_fail = (at 8).file_fail;
  fax_lost = (at 9).fax_lost;
  fax_enqueue = (at 10).fax_enqueue;
  fax_dequeue = (at 11).fax_dequeue;
  fax_yes = (at 12).fax_yes;
  fax_no = (at 13).fax_no;
}

-- the fourteen calls of htobe64
unfoldable pub swap_all : AllCount ℕ → AllCount (List ℕ)
swap_all c = record {
  pkts = be64 c.pkts;
  lost_pkts = be64 c.lost_pkts;
  voice_pkts = be64 c.voice_pkts;
  other_pkts = be64 c.other_pkts;
  call_start = be64 c.call_start;
  call_end = be64 c.call_end;
  call_timeout = be64 c.call_timeout;
  file_ok = be64 c.file_ok;
  file_fail = be64 c.file_fail;
  fax_enqueue = be64 c.fax_enqueue;
  fax_lost = be64 c.fax_lost;
  fax_dequeue = be64 c.fax_dequeue;
  fax_yes = be64 c.fax_yes;
  fax_no = be64 c.fax_no;
}

-- the bytes of the struct
unfoldable pub memory : AllCount (List ℕ) → List ℕ
memory c =
    c.pkts ++ c.lost_pkts ++ c.voice_pkts ++ c.other_pkts ++ c.call_start ++ c.call_end
    ++ c.call_timeout ++ c.file_ok ++ c.file_fail ++ c.fax_lost ++ c.fax_enqueue ++ c.fax_dequeue
    ++ c.fax_yes ++ c.fax_no

-- `ma_cmd_get_counter`: `size` is sizeof(struct pkt_header), `sn` the number of the command, `now` the time, `at` the
-- counters at each load.
unfoldable pub ma_cmd_get_counter : ℕ → ℕ → ℕ → (ℕ → AllCounters) → Packet
ma_cmd_get_counter size sn now at =
    let payload =
      vpu_fill_info (be16 1) 2 2
      ++ (vpu_fill_info (be64 now) 8 1000
          ++ vpu_fill_info (memory (swap_all (load_all at))) 112 3) in
    record {
      header = record {
        ver = 1;
        reply = 1;
        cmd = 19;
        num = sn % 65536;
        len = (size + length payload) % 65536;
      };
      payload = payload;
    }

-- the number of eight bytes
abbrev read_be64 : List ℕ → ℕ
read_be64 xs =
    byte_at xs 0 * 2 ^ 56
    + byte_at xs 1 * 2 ^ 48
    + byte_at xs 2 * 2 ^ 40
    + byte_at xs 3 * 2 ^ 32
    + byte_at xs 4 * 2 ^ 24
    + byte_at xs 5 * 65536
    + byte_at xs 6 * 256
    + byte_at xs 7

-- Reads `n` numbers of eight bytes each, as the receiver does.
abbrev pub read_be64s : ℕ → List ℕ → List ℕ
read_be64s zero bytes = []
read_be64s (suc n) bytes = read_be64 bytes ∷ read_be64s n (drop 8 bytes)

-- what a receiver reads from numbers one behind the other
abbrev pub all_be64 : List ℕ → List ℕ
all_be64 [] = []
all_be64 (v ∷ vs) = be64 v ++ all_be64 vs

be64-read :
    (v : ℕ)
    → v < 2 ^ 64
    → v / 2 ^ 56 % 256 * 2 ^ 56
        + v / 2 ^ 48 % 256 * 2 ^ 48
        + v / 2 ^ 40 % 256 * 2 ^ 40
        + v / 2 ^ 32 % 256 * 2 ^ 32
        + v / 2 ^ 24 % 256 * 2 ^ 24
        + v / 65536 % 256 * 65536
        + v / 256 % 256 * 256
        + v % 256
      ≡ v
be64-read v h = omega arith

abbrev pub AllSmall : List ℕ → Type 0
AllSmall [] = Unit {0}
AllSmall (v ∷ vs) = (v < 2 ^ 64) × AllSmall vs

read-all_be64 : (vs : List ℕ) → AllSmall vs → read_be64s (length vs) (all_be64 vs) ≡ vs
read-all_be64 [] small = refl
read-all_be64 (v ∷ vs) small = ap₂ (λ x l. x ∷ l) (be64-read v small.0) (read-all_be64 vs small.1)

-- The counters in the order in which the receiver expects them, as they are when each is loaded.
abbrev pub expected : (ℕ → AllCounters) → List ℕ
expected at =
    (at 0).all_pkts
    ∷ (at 1).lost_pkts
    ∷ (at 2).voice_pkts
    ∷ (at 3).other_pkts
    ∷ (at 4).call_start
    ∷ (at 5).call_end
    ∷ (at 6).call_timeout
    ∷ (at 7).file_ok
    ∷ (at 8).file_fail
    ∷ (at 9).fax_lost
    ∷ (at 10).fax_enqueue
    ∷ (at 11).fax_dequeue
    ∷ (at 12).fax_yes
    ∷ (at 13).fax_no
    ∷ []

memory-all_be64 : (at : ℕ → AllCounters) → memory (swap_all (load_all at)) ≡ all_be64 (expected at)
unfolding memory swap_all load_all
memory-all_be64 at = refl

-- The packet with the counters divides into three fields, the version, the time and the counters; the third one,
-- read as fourteen numbers of eight bytes, is what the counters of src/counter.c were when each was loaded: the packets
-- and those lost, of voice and others, the calls begun, ended and timed out, the files opened and failed, and of fax the
-- nodes lost, put in, taken out, decoded and not. Counters are below 2 ^ 64.
pub ma_cmd_get_counter-counters :
    (size sn now : ℕ) (at : ℕ → AllCounters)
    → AllSmall (expected at)
    → (counters : List ℕ) × (read_fields 3 (ma_cmd_get_counter size sn now at).payload
        ≡ some ((2, be16 1) ∷ (1000, be64 now) ∷ (3, counters) ∷ []))
      × (read_be64s 14 counters ≡ expected at)
unfolding ma_cmd_get_counter
ma_cmd_get_counter-counters size sn now at small = (
  all_be64 (expected at),
  rw (ma_cmd_get_counter, memory-all_be64 at)
      (read_fields-info 2 (be16 1) _ 2 (omega arith) (omega arith)
        ∙ ap (read_more (2, be16 1)) (
            read_fields-info 1 (be64 now) _ 1000 (omega arith) (omega arith)
            ∙ ap (read_more (1000, be64 now))
                (last_field (all_be64 (expected at)) 3 (omega arith) (omega arith)))),
  read-all_be64 (expected at) small,
)
