-- ===== src/Start/Examples.antt =====
-- Tests and applications for the start and the end of the process.
use vpu.Common.{
  ℕ, ◌+◌, ◌≡◌, ◌≢◌, ◌↔◌, inl, inr, refl, true, false, Bool, Bool-cases, ◌==◌, ◌&&◌, ==→eq, and_left,
  and_right, some, List, [], ◌∷◌, arith, if◌then◌else◌,
}
use vpu.Cycle.{end_round}
use vpu.Start.{
  StartTurn, main_loop, fax_thread, create_next, read_index, start_turn, start_run, before_fax,
  joined, Turn, sigint, round, signal_handler_sigint, test_flags, turn, run, all_joined, started,
}
use vpu.Start.FaxIndex.{indices_differ}
use vpu.Start.Shutdown.{IdleStop, Visits, AllVisited, shutdown_returns, ended-IdleStop}

-- The thread 0 is late, and reads the index of the thread 1.
abbrev late : List StartTurn
late =
    main_loop
    ∷ main_loop
    ∷ fax_thread 0
    ∷ fax_thread 1
    ∷ main_loop
    ∷ fax_thread 2
    ∷ main_loop
    ∷ fax_thread 3
    ∷ []

late_indices : (start_run late before_fax).indices ≡ some 1 ∷ some 1 ∷ some 2 ∷ some 3 ∷ []
unfolding start_run start_turn create_next read_index
late_indices = refl

indices_differ_example :
    (((1 + 0) ≢ 1) × ((1 + 0) ≢ 2) × ((1 + 0) ≢ 3) × ((1 + 0) ≢ 2) × ((1 + 0) ≢ 3) × ((2 + 0) ≢ 3))
    ↔ (((1 + 0) ≡ 0) × ((1 + 0) ≡ 1) × ((2 + 0) ≡ 2) × ((3 + 0) ≡ 3))
indices_differ_example = indices_differ late 1 1 2 3 late_indices

-- a turn of each thread
abbrev each : List Turn
each =
    round 0 0
    ∷ round 1 0
    ∷ round 2 0
    ∷ round 3 0
    ∷ round 4 0
    ∷ round 5 0
    ∷ round 6 0
    ∷ round 7 0
    ∷ round 8 0
    ∷ round 9 0
    ∷ round 10 0
    ∷ round 11 0
    ∷ round 12 0
    ∷ round 13 0
    ∷ round 14 0
    ∷ round 15 0
    ∷ round 16 0
    ∷ round 17 0
    ∷ []

abbrev visits : ℕ → List Turn → Bool
visits k [] = false
visits k (sigint ∷ ts) = visits k ts
visits k (round j online ∷ ts) = if k == j then true else visits k ts

abbrev all_visited : List ℕ → List Turn → Bool
all_visited [] ts = true
all_visited (k ∷ ks) ts = visits k ts && all_visited ks ts

visits-Visits : (k : ℕ) (ts : List Turn) → visits k ts ≡ true → Visits k ts
visits-Visits k [] h = cc
visits-Visits k (sigint ∷ ts) h = visits-Visits k ts h
visits-Visits k (round j online ∷ ts) h = elim (Bool-cases (k == j)) [
  | inl at ↦ inl (==→eq k j at)
  | inr ne ↦ inr (visits-Visits k ts (ground arith))
]

all_visited-AllVisited :
    (ks : List ℕ) (ts : List Turn) → all_visited ks ts ≡ true → AllVisited ks ts
all_visited-AllVisited [] ts h = tt
all_visited-AllVisited (k ∷ ks) ts h =
    (inr (visits-Visits k ts (and_left _ _ h)), all_visited-AllVisited ks ts (and_right _ _ h))

shutdown_returns_example :
    all_joined joined
      (run each (run (round 13 2 ∷ round 13 0 ∷ []) (turn sigint (run each started))))
    ≡ true
shutdown_returns_example =
    shutdown_returns each (round 13 2 ∷ round 13 0 ∷ []) each (inr (inl (refl, refl)))
      (all_visited-AllVisited joined each refl)

-- the worker 3 behind SIGINT and a round of the cycle thread
abbrev stopping : List Turn
stopping = sigint ∷ round 13 0 ∷ round 3 0 ∷ []

worker_ended : (run stopping started).ended 3 ≡ true
unfolding run turn test_flags end_round signal_handler_sigint
worker_ended = refl

ended-IdleStop_test : IdleStop stopping
ended-IdleStop_test = ended-IdleStop stopping 3 worker_ended
