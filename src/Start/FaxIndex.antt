-- ===== src/Start/FaxIndex.antt =====
-- The indices that the fax threads read from `queue.flag` in src/vpu.c and src/fax_decode.c.
use vpu.Common.{
  ℕ, zero, suc, ◌+◌, ◌≤◌, ◌<◌, ◌≡◌, ◌≢◌, ◌↔◌, refl, true, false, ◌&&◌, Option, none, some, List, [],
  ◌∷◌, ltb, if◌then◌else◌, get_or, set, arith, if_splits, is_some, and_left, ltb→lt, tests,
}
use mathlib.Core.Path.{subst}
use vpu.Start.{
  FaxStart, StartTurn, main_loop, fax_thread, create_next, read_index, start_turn, start_run,
  before_fax,
}

-- An index that the thread `k` may have read, when `n` threads are made.
abbrev IndexOk : ℕ → ℕ → Option ℕ → Type 0
IndexOk n k none = Unit
IndexOk n k (some v) = (k ≤ v) × (v < n)

abbrev IndicesOk : ℕ → ℕ → List (Option ℕ) → Type 0
IndicesOk n k [] = Unit
IndicesOk n k (o ∷ os) = IndexOk n k o × IndicesOk n (suc k) os

record IsStart (s : FaxStart) : Type 0 where
  bound : s.created ≤ 4
  last : 0 < s.created → s.flag + 1 ≡ s.created
  indices_ok : IndicesOk s.created 0 s.indices

IndicesOk-mono : (n m k : ℕ) (os : List (Option ℕ)) → n ≤ m → IndicesOk n k os → IndicesOk m k os
IndicesOk-mono n m k [] le h = tt
IndicesOk-mono n m k (none ∷ os) le (h, hs) = (tt, IndicesOk-mono n m (suc k) os le hs)
IndicesOk-mono n m k (some v ∷ os) le (h, hs) =
    ((h.0, omega arith), IndicesOk-mono n m (suc k) os le hs)

IndicesOk-set :
    (n k i v : ℕ) (os : List (Option ℕ))
    → k + i ≤ v
    → v < n
    → IndicesOk n k os
    → IndicesOk n k (set os i (some v))
IndicesOk-set n k i v [] le lt h = tt
IndicesOk-set n k zero v (o ∷ os) le lt (h, hs) = ((omega arith, lt), hs)
IndicesOk-set n k (suc i) v (o ∷ os) le lt (h, hs) =
    (h, IndicesOk-set n (suc k) i v os (omega arith) lt hs)

create_next-IsStart : (s : FaxStart) → IsStart s → IsStart (create_next s)
unfolding create_next
create_next-IsStart s h =
    if_splits IsStart (ltb s.created 4)
      (λ more. record {
        bound = omega tests;
        last = λ _. refl;
        indices_ok =
            IndicesOk-mono s.created (s.created + 1) 0 s.indices (omega arith) h.indices_ok;
      })
      (λ _. h)

read_index-IsStart : (k : ℕ) (s : FaxStart) → IsStart s → IsStart (read_index k s)
unfolding read_index
read_index-IsStart k s h =
    if_splits IsStart
      (ltb k s.created && (if is_some (get_or s.indices k none) then false else true))
      (λ may.
        let made : k < s.created = ltb→lt k s.created (and_left _ _ may) in
        let flag : s.flag + 1 ≡ s.created = h.last (omega arith) in
        record {
          bound = h.bound;
          last = h.last;
          indices_ok =
              IndicesOk-set s.created 0 k s.flag s.indices (omega arith) (omega arith) h.indices_ok;
        })
      (λ _. h)

start_run-IsStart : (ts : List StartTurn) (s : FaxStart) → IsStart s → IsStart (start_run ts s)
unfolding start_run start_turn
start_run-IsStart [] s h = h
start_run-IsStart (main_loop ∷ ts) s h =
    start_run-IsStart ts (create_next s) (create_next-IsStart s h)
start_run-IsStart (fax_thread k ∷ ts) s h =
    start_run-IsStart ts (read_index k s) (read_index-IsStart k s h)

-- Whatever the order in which `main` and the four fax threads run: once each thread has read its index, the
-- indices differ only if each thread has read its own number, that is, each had begun before `main` went on to the
-- next one. Else two threads share one index, and with it one entry of the arrays of the decoder.
pub indices_differ :
    (ts : List StartTurn) (a b c d : ℕ)
    → (start_run ts before_fax).indices ≡ some a ∷ some b ∷ some c ∷ some d ∷ []
    → ((a ≢ b) × (a ≢ c) × (a ≢ d) × (b ≢ c) × (b ≢ d) × (c ≢ d))
      ↔ ((a ≡ 0) × (b ≡ 1) × (c ≡ 2) × (d ≡ 3))
indices_differ ts a b c d e =
    let h = start_run-IsStart ts before_fax (record {
      bound = omega arith;
      last = λ p. absurd (omega arith);
      indices_ok = (tt, (tt, (tt, (tt, tt))));
    }) in
    let ok = subst (IndicesOk (start_run ts before_fax).created 0) e h.indices_ok in
    let le = h.bound in ground (arith, ok.0, ok.1.0, ok.1.1.0, ok.1.1.1.0, le)
