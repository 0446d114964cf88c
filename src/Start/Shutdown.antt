-- ===== src/Start/Shutdown.antt =====
-- The end of the process in src/vpu.c.
use vpu.Common.{
  ℕ, ◌≡◌, ◌⊎◌, inl, inr, refl, ap, ◌∙◌, sym, Bool, true, false, List, [], ◌∷◌, ◌==◌, arith,
  if_keeps, Bool-cases, ==→eq,
}
use mathlib.Core.Path.{subst}
use vpu.Cycle.{end_round}
use vpu.Start.{
  cycle_no, joined, Process, Turn, sigint, round, signal_handler_sigint, end_thread, test_flags,
  turn, run, all_joined, started,
}

-- The cycle thread leaves its loop only with SVM_DONE set, and it is set only behind SVM_STOP; no other thread leaves
-- its loop before.
record IsOrderly (p : Process) : Type 0 where
  stopped : p.signals.done ≡ true → p.signals.stop ≡ true
  not_killed : p.signals.kill ≡ false
  done_first : (k : ℕ) → p.ended k ≡ true → p.signals.done ≡ true

-- what a turn never takes back
record Grows (p q : Process) : Type 0 where
  stays_stop : p.signals.stop ≡ true → q.signals.stop ≡ true
  stays_done : p.signals.done ≡ true → q.signals.done ≡ true
  stays_ended : (k : ℕ) → p.ended k ≡ true → q.ended k ≡ true

end_thread-keeps :
    (k j : ℕ) (leaves : Bool) (ended : ℕ → Bool)
    → ended j ≡ true
    → end_thread k leaves ended j ≡ true
end_thread-keeps k j leaves ended h = ground arith

test_flags-Grows : (k online : ℕ) (p : Process) → Grows p (test_flags k online p)
unfolding test_flags end_round
test_flags-Grows k online p =
    if_keeps (Grows p) (k == cycle_no)
      (if_keeps (Grows p) (p.ended cycle_no)
        (record { stays_stop = λ h. h; stays_done = λ h. h; stays_ended = λ j h. h })
        (record {
          stays_stop = λ h. ground arith;
          stays_done = λ h. ground arith;
          stays_ended = λ j h. end_thread-keeps cycle_no j _ p.ended h;
        }))
      (record {
        stays_stop = λ h. h;
        stays_done = λ h. h;
        stays_ended = λ j h. end_thread-keeps k j p.signals.done p.ended h;
      })

turn-Grows : (t : Turn) (p : Process) → Grows p (turn t p)
unfolding turn signal_handler_sigint
turn-Grows sigint p = record { stays_stop = λ h. refl; stays_done = λ h. h; stays_ended = λ j h. h }
turn-Grows (round k online) p = test_flags-Grows k online p

run-Grows : (ts : List Turn) (p : Process) → Grows p (run ts p)
unfolding run
run-Grows [] p = record { stays_stop = λ h. h; stays_done = λ h. h; stays_ended = λ j h. h }
run-Grows (t ∷ ts) p =
    let a = turn-Grows t p in
    let b = run-Grows ts (turn t p) in
    record {
      stays_stop = λ h. b.stays_stop (a.stays_stop h);
      stays_done = λ h. b.stays_done (a.stays_done h);
      stays_ended = λ j h. b.stays_ended j (a.stays_ended j h);
    }

-- The thread `k` has a turn; the cycle thread has one in which no call is online; and that happens behind SIGINT.
abbrev pub Visits : ℕ → List Turn → Type 0
Visits k [] = ⊥
Visits k (sigint ∷ ts) = Visits k ts
Visits k (round j online ∷ ts) = (k ≡ j) ⊎ Visits k ts

abbrev pub IdleVisit : List Turn → Type 0
IdleVisit [] = ⊥
IdleVisit (sigint ∷ ts) = IdleVisit ts
IdleVisit (round j online ∷ ts) = ((j ≡ cycle_no) × (online ≡ 0)) ⊎ IdleVisit ts

abbrev pub IdleStop : List Turn → Type 0
IdleStop [] = ⊥
IdleStop (sigint ∷ ts) = IdleVisit ts ⊎ IdleStop ts
IdleStop (round j online ∷ ts) = IdleStop ts

abbrev pub AllVisited : List ℕ → List Turn → Type 0
AllVisited [] ts = Unit
AllVisited (k ∷ ks) ts = ((k ≡ cycle_no) ⊎ Visits k ts) × AllVisited ks ts

test_flags-IsOrderly :
    (k online : ℕ) (p : Process) → IsOrderly p → IsOrderly (test_flags k online p)
unfolding test_flags end_round
test_flags-IsOrderly k online p h =
    if_keeps IsOrderly (k == cycle_no)
      (if_keeps IsOrderly (p.ended cycle_no) h (record {
        stopped = λ d. ground (arith, h.stopped, h.not_killed);
        not_killed = ground (arith, h.not_killed);
        done_first = λ j e. ground (arith, h.done_first j);
      }))
      (record {
        stopped = h.stopped;
        not_killed = h.not_killed;
        done_first = λ j e. ground (arith, h.done_first j);
      })

run-IsOrderly : (ts : List Turn) (p : Process) → IsOrderly p → IsOrderly (run ts p)
unfolding run turn signal_handler_sigint
run-IsOrderly [] p h = h
run-IsOrderly (sigint ∷ ts) p h =
    run-IsOrderly ts (turn sigint p)
      (record { stopped = λ d. refl; not_killed = h.not_killed; done_first = h.done_first })
run-IsOrderly (round k online ∷ ts) p h =
    run-IsOrderly ts (turn (round k online) p) (test_flags-IsOrderly k online p h)

-- A turn of the cycle thread behind SIGINT in which no call is online ends it, and sets SVM_DONE.
idle_turn :
    (p : Process)
    → IsOrderly p
    → p.signals.stop ≡ true
    → ((test_flags cycle_no 0 p).ended cycle_no ≡ true)
      × ((test_flags cycle_no 0 p).signals.done ≡ true)
unfolding test_flags end_round
idle_turn p h stop = ground (arith, h.done_first cycle_no, h.not_killed)

other_turn :
    (k online : ℕ) (p : Process)
    → (k == cycle_no) ≡ false
    → p.signals.done ≡ true
    → (test_flags k online p).ended k ≡ true
unfolding test_flags
other_turn k online p ne done = ground arith

cycle_ends :
    (ts : List Turn) (p : Process)
    → IsOrderly p
    → p.signals.stop ≡ true
    → IdleVisit ts
    → ((run ts p).ended cycle_no ≡ true) × ((run ts p).signals.done ≡ true)
unfolding run turn signal_handler_sigint
cycle_ends [] p h stop v = absurd v
cycle_ends (sigint ∷ ts) p h stop v =
    cycle_ends ts (turn sigint p)
      (record { stopped = λ d. refl; not_killed = h.not_killed; done_first = h.done_first }) refl v
cycle_ends (round j online ∷ ts) p h stop (inl (at, idle)) =
    let now = idle_turn p h stop in
    let same : test_flags cycle_no 0 p ≡ test_flags j online p =
      ap (λ i. test_flags i 0 p) (sym at) ∙ ap (λ o. test_flags j o p) (sym idle) in
    let more = run-Grows ts (test_flags j online p) in
    (
      more.stays_ended cycle_no (subst (λ q. q.ended cycle_no ≡ true) same now.0),
      more.stays_done (subst (λ q. q.signals.done ≡ true) same now.1),
    )
cycle_ends (round j online ∷ ts) p h stop (inr v) =
    cycle_ends ts (test_flags j online p) (test_flags-IsOrderly j online p h)
      ((test_flags-Grows j online p).stays_stop stop) v

visited_ends :
    (ts : List Turn) (k : ℕ) (p : Process)
    → (k == cycle_no) ≡ false
    → p.signals.done ≡ true
    → Visits k ts
    → (run ts p).ended k ≡ true
unfolding run turn signal_handler_sigint
visited_ends [] k p ne done v = absurd v
visited_ends (sigint ∷ ts) k p ne done v = visited_ends ts k (turn sigint p) ne done v
visited_ends (round j online ∷ ts) k p ne done (inl at) =
    let now = other_turn k online p ne done in
    (run-Grows ts (test_flags j online p)).stays_ended k
      (subst (λ i. (test_flags i online p).ended k ≡ true) at now)
visited_ends (round j online ∷ ts) k p ne done (inr v) =
    visited_ends ts k (test_flags j online p) ne ((test_flags-Grows j online p).stays_done done) v

all_end :
    (ks : List ℕ) (ts : List Turn) (p : Process)
    → p.signals.done ≡ true
    → p.ended cycle_no ≡ true
    → AllVisited ks ts
    → all_joined ks (run ts p) ≡ true
unfolding all_joined
all_end [] ts p done cycle v = refl
all_end (k ∷ ks) ts p done cycle (v, vs) =
    let last = (run-Grows ts p).stays_ended in
    let this : (run ts p).ended k ≡ true = elim (Bool-cases (k == cycle_no)) [
      | inl is ↦ last k (subst (λ i. p.ended i ≡ true) (sym (==→eq k cycle_no is)) cycle)
      | inr ne ↦ elim v [
        | inl at ↦ absurd (ground arith)
        | inr seen ↦ visited_ends ts k p ne done seen
      ]
    ] in
    rw this (all_end ks ts p done cycle vs)

started-IsOrderly : IsOrderly started
started-IsOrderly = record { stopped = λ d. d; not_killed = refl; done_first = λ k e. e }

-- After SIGINT, once the cycle thread has come to its test while no call is online, `main` returns as soon as
-- each other thread that it joins has come to its own test once: whatever turns the threads have had
-- before, in between and besides. The thread of the CDR sender is not among them.
pub shutdown_returns :
    (before us vs : List Turn)
    → IdleVisit us
    → AllVisited joined vs
    → all_joined joined (run vs (run us (turn sigint (run before started)))) ≡ true
unfolding turn signal_handler_sigint
shutdown_returns before us vs idle all =
    let h = run-IsOrderly before started started-IsOrderly in
    let stopped : IsOrderly (turn sigint (run before started)) = record {
      stopped = λ d. refl;
      not_killed = h.not_killed;
      done_first = h.done_first;
    } in
    let c = cycle_ends us (turn sigint (run before started)) stopped refl idle in
    all_end joined vs (run us (turn sigint (run before started))) c.1 c.0 all

stop_before :
    (k online : ℕ) (p : Process)
    → (test_flags k online p).signals.stop ≡ true
    → p.signals.stop ≡ true
unfolding test_flags end_round
stop_before k online p h = ground arith

done_now :
    (k online : ℕ) (p : Process)
    → IsOrderly p
    → (test_flags k online p).signals.done ≡ true
    → (p.signals.done ≡ true) ⊎ ((p.signals.stop ≡ true) × (k ≡ cycle_no) × (online ≡ 0))
unfolding test_flags end_round
done_now k online p h d = elim (Bool-cases p.signals.done) [
  | inl before ↦ inl before
  | inr off ↦ inr (
    ground (arith, off, d, h.not_killed),
    ground (arith, off, d, h.not_killed),
    ground (arith, off, d, h.not_killed),
  )
]

-- the three ways in which SVM_DONE comes to be set
done_by :
    (ts : List Turn) (p : Process)
    → IsOrderly p
    → (run ts p).signals.done ≡ true
    → (p.signals.done ≡ true) ⊎ (((p.signals.stop ≡ true) × IdleVisit ts) ⊎ IdleStop ts)
unfolding run turn signal_handler_sigint
done_by [] p h d = inl d
done_by (sigint ∷ ts) p h d =
    elim (done_by ts (turn sigint p)
      (record { stopped = λ _. refl; not_killed = h.not_killed; done_first = h.done_first }) d) [
        | inl before ↦ inl before
        | inr (inl (_, idle)) ↦ inr (inr (inl idle))
        | inr (inr later) ↦ inr (inr (inr later))
      ]
done_by (round k online ∷ ts) p h d =
    elim (done_by ts (test_flags k online p) (test_flags-IsOrderly k online p h) d) [
      | inl now ↦ elim (done_now k online p h now) [
        | inl before ↦ inl before
        | inr (stop, at, idle) ↦ inr (inl (stop, inl (at, idle)))
      ]
      | inr (inl (stop, idle)) ↦ inr (inl (stop_before k online p stop, inr idle))
      | inr (inr later) ↦ inr (inr later)
    ]

-- No thread leaves its loop, in whatever order they run, unless SIGINT has come and the cycle thread has then
-- found that no call was online.
pub ended-IdleStop : (ts : List Turn) (k : ℕ) → (run ts started).ended k ≡ true → IdleStop ts
ended-IdleStop ts k e =
    let h = run-IsOrderly ts started started-IsOrderly in
    elim (done_by ts started started-IsOrderly (h.done_first k e)) [
      | inl before ↦ absurd (ground arith)
      | inr (inl (stop, _)) ↦ absurd (ground arith)
      | inr (inr idle) ↦ idle
    ]
