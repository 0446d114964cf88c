-- ===== src/Start.antt =====
-- The start and the end of the process in src/vpu.c: `main` hands each fax thread its index through one
-- shared variable, and waits for threads that leave their loops once `svm_signal_flags` says so.
-- What a thread does in its rounds is with the other parts; here a turn is an access to the shared variable.
pub mod FaxIndex
pub mod Shutdown
mod Examples
use vpu.Common.{
  ℕ, zero, suc, ◌+◌, Bool, true, false, ◌&&◌, ◌||◌, Option, none, some, List, [], ◌∷◌, ltb, ◌==◌,
  if◌then◌else◌, get_or, set, replicate, is_some,
}
use vpu.Cycle.{Signals, end_round}

-- `queue.flag`, the number of fax threads that `main` has made, and the index that each of the four has read
pub record FaxStart : Type 0 where
  pub flag : ℕ
  pub created : ℕ
  pub indices : List (Option ℕ)

pub data StartTurn : Type 0 where
  main_loop : StartTurn
  fax_thread : ℕ → StartTurn

-- a round of the loop in `main`: the store of `i`, and the thread
unfoldable pub create_next : FaxStart → FaxStart
create_next s =
    if ltb s.created 4 then record s { flag = s.created; created = s.created + 1 } else s

-- `int flag = queue->flag` at the beginning of `fax_pre`, in the thread `k`
unfoldable pub read_index : ℕ → FaxStart → FaxStart
read_index k s =
    if ltb k s.created && (if is_some (get_or s.indices k none) then false else true)
    then record s { indices = set s.indices k (some s.flag) }
    else s

unfoldable pub start_turn : StartTurn → FaxStart → FaxStart
start_turn main_loop s = create_next s
start_turn (fax_thread k) s = read_index k s

unfoldable pub start_run : List StartTurn → FaxStart → FaxStart
start_run [] s = s
start_run (t ∷ ts) s = start_run ts (start_turn t s)

abbrev pub before_fax : FaxStart
before_fax = record { flag = 0; created = 0; indices = replicate 4 none }

-- The threads by number: conn_sguard, conn_ma, conn_cdr_thread, the workers from 3 on, vpu_io_thread,
-- file_server_thread, cycle_thread, and the fax threads from 14 on.
abbrev pub cycle_no : ℕ
cycle_no = 13

-- the threads that `main` joins
abbrev pub joined : List ℕ
joined = 0 ∷ 1 ∷ 11 ∷ 12 ∷ 13 ∷ 3 ∷ 4 ∷ 5 ∷ 6 ∷ 7 ∷ 8 ∷ 9 ∷ 10 ∷ 14 ∷ 15 ∷ 16 ∷ 17 ∷ []

-- `svm_signal_flags`, and which threads have left their loops
pub record Process : Type 0 where
  pub signals : Signals
  pub ended : ℕ → Bool

-- SIGINT, or a round of a thread up to its test of the flags, with `call_online` as the cycle thread reads it.
pub data Turn : Type 0 where
  sigint : Turn
  round : ℕ → ℕ → Turn

-- `signal_handler_sigint`
unfoldable pub signal_handler_sigint : Signals → Signals
signal_handler_sigint s = record s { stop = true }

abbrev pub end_thread : ℕ → Bool → (ℕ → Bool) → ℕ → Bool
end_thread k leaves ended j = if k == j then ended j || leaves else ended j

-- The test of the thread `k`: the cycle thread makes it by `end_round`, at the end of its round.
unfoldable pub test_flags : ℕ → ℕ → Process → Process
test_flags k online p =
    if k == cycle_no
    then (if p.ended cycle_no
        then p
        else (let (leaves, s) = end_round online p.signals in
            record { signals = s; ended = end_thread cycle_no leaves p.ended }))
    else record p { ended = end_thread k p.signals.done p.ended }

unfoldable pub turn : Turn → Process → Process
turn sigint p = record p { signals = signal_handler_sigint p.signals }
turn (round k online) p = test_flags k online p

unfoldable pub run : List Turn → Process → Process
run [] p = p
run (t ∷ ts) p = run ts (turn t p)

-- whether the calls of `pthread_join` have all returned
unfoldable pub all_joined : List ℕ → Process → Bool
all_joined [] p = true
all_joined (k ∷ ks) p = p.ended k && all_joined ks p

abbrev pub started : Process
started = record {
  signals = record { kill = false; stop = false; done = false };
  ended = λ k. false;
}
