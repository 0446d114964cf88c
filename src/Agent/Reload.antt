-- ===== src/Agent/Reload.antt =====
-- The loop of `ma_cmd_reload` in src/conn_serv.c, which adds to `left` what it should take off.
use vpu.Common.{
  ℕ, zero, suc, ◌+◌, ◌-◌, ◌%◌, ◌^◌, ◌≤◌, ◌<◌, ◌≡◌, false, Bool-cases, inl, inr, Option, none, some,
  List, [], ltb, leb, ◌==◌, ◌||◌, arith, read_be16, length, not_ltb→le,
}
use vpu.Agent.{Conf, Ending, returned0, returned_1, overread, reload_loop, ma_cmd_reload}

-- The run is over, and has not ended with 0.
abbrev pub NotZero : Option (Ending × List Conf) → Type 0
NotZero none = ⊥
NotZero (some (returned0, done)) = ⊥
NotZero (some (returned_1, done)) = Unit {0}
NotZero (some (overread, done)) = Unit {0}

-- `left` has grown by as much as the place in the data, at least
record Ahead (data_len at left : ℕ) (mem : List ℕ) : Type 0 where
  enough : 4 ≤ left
  grown : left ≤ data_len + at
  inside : at ≤ length mem

Ahead-next :
    (data_len at left len : ℕ) (mem : List ℕ)
    → data_len + length mem < 4294967296
    → Ahead data_len at left mem
    → at + 4 + len ≤ length mem
    → 8 < len
    → Ahead data_len (at + 4 + len) ((left - 4 + len) % 2 ^ 32) mem
Ahead-next data_len at left len mem h a l big =
    let e : (left - 4 + len) % 2 ^ 32 ≡ left - 4 + len =
      omega (arith, a.enough, a.grown, a.inside) in
    record {
      enough = rw e (omega (arith, a.enough));
      grown = rw e (omega (arith, a.enough, a.grown));
      inside = l;
    }

reload_loop-NotZero :
    (fuel data_len at left : ℕ) (mem : List ℕ) (done : List Conf)
    → data_len + length mem < 4294967296
    → Ahead data_len at left mem
    → length mem < fuel + at
    → NotZero (reload_loop fuel mem at left done)
unfolding reload_loop
reload_loop-NotZero zero data_len at left mem done h a l = absurd (omega (arith, a.inside))
reload_loop-NotZero (suc fuel) data_len at left mem done h a l =
    let len = read_be16 mem (at + 2) in
    let e : ltb left 4 ≡ false = ground (arith, a.enough) in
    rw e (elim (Bool-cases (ltb (length mem) (at + 4))) [
      | inl over ↦ rw over tt
      | inr here ↦ elim (Bool-cases (ltb (left - 4) len || (ltb 255 len || leb len 8))) [
        | inl bad ↦ rw (here, bad) tt
        | inr good ↦ elim (Bool-cases (read_be16 mem at == 1)) [
          | inr other ↦ rw (here, good, other) tt
          | inl file ↦ elim (Bool-cases (ltb (length mem) (at + 4 + len))) [
            | inl past ↦ rw (here, good, file, past) tt
            | inr fits ↦
                let big : 8 < len = ground arith in
                let l' : at + 4 + len ≤ length mem = not_ltb→le _ _ fits in
                rw (here, good, file, fits)
                  (reload_loop-NotZero fuel data_len (at + 4 + len) ((left - 4 + len) % 2 ^ 32) mem
                    _ h (Ahead-next data_len at left len mem h a l' big) (omega arith))
          ]
        ]
      ]
    ])

-- A reload command of at least four bytes never ends with 0, however it is made up: `ma_cmd_reload` either
-- returns -1 or goes on until it reads behind the memory that holds the command, since each file name makes
-- `left` larger. The memory is smaller than the range of `left`.
pub ma_cmd_reload-NotZero :
    (mem : List ℕ) (data_len : ℕ)
    → 4 ≤ data_len
    → data_len + length mem < 4294967296
    → NotZero (ma_cmd_reload (suc (length mem)) mem data_len)
unfolding ma_cmd_reload
ma_cmd_reload-NotZero mem data_len h l =
    let e : (data_len == 0) ≡ false = ground arith in
    rw e (
      reload_loop-NotZero (suc (length mem)) data_len 0 data_len mem [] l
        (record { enough = h; grown = omega arith; inside = omega arith }) (omega arith))
