-- ===== src/Server/Serve.antt =====
-- What `file_tx_thread` of src/file_server.c sends of the two files of a call.
use vpu.Common.{
  eq→==, ne→not_==, ==→eq, not_==→ne, ℕ, zero, suc, ◌+◌, ◌-◌, ◌*◌, ◌/◌, ◌≤◌, ◌<◌, ◌≡◌, ◌≢◌, refl,
  ◌∙◌, ap, ◌⊎◌, inl, inr, Bool, true, false, Bool-cases, List, [], ◌∷◌, ◌++◌, ltb, ◌==◌, ◌!=◌, ◌&&◌,
  ◌||◌, if◌then◌else◌, arith, length, min, take, drop, sym, length-take, length-drop,
  take-append-take-drop, take_of_length_le,
}
use vpu.Voice.Files.{mix}
use vpu.Server.{Played, overrun, played, read_len, play_loop, prepend}

mix-append : (a b c d : List ℕ) → length a ≡ length c → mix (a ++ b) (c ++ d) ≡ mix a c ++ mix b d
unfolding mix
mix-append [] b [] d h = refl
mix-append [] b (y ∷ c) d h = absurd (omega arith)
mix-append (x ∷ a) b [] d h = absurd (omega arith)
mix-append (x ∷ a) b (y ∷ c) d h = ap (λ l. x ∷ y ∷ l) (mix-append a b c d (omega arith))

-- How many bytes of each file are sent, of files of the lengths `up` and `down`.
unfoldable pub sent_of : ℕ → ℕ → ℕ
sent_of up down = if up == down then up else min up down / 1024 * 1024

-- the test that ends the loop, on the lengths of the files
abbrev stops : ℕ → ℕ → Bool
stops up down = (min 1024 up != min 1024 down) || (min 1024 up == 0)

sent_of-stop : (up down : ℕ) → stops up down ≡ true → sent_of up down ≡ 0
unfolding sent_of
sent_of-stop up down h = ground arith

-- a round that goes on: two whole blocks, or the last of two files of one length
sent_of-go :
    (up down : ℕ)
    → stops up down ≡ false
    → (sent_of up down ≡ 1024 + sent_of (up - 1024) (down - 1024))
      ⊎ ((up ≡ down)
          × (up < 1024)
          × (sent_of up down ≡ up)
          × (sent_of (up - 1024) (down - 1024) ≡ 0))
unfolding sent_of
sent_of-go up down h = elim (Bool-cases (ltb up 1024)) [
  | inl e ↦ inr (ground arith, ground arith, ground arith, ground arith)
  | inr e ↦ inl (ground arith)
]

take-past : (n m : ℕ) (xs : List ℕ) → length xs ≤ n → length xs ≤ m → take n xs ≡ take m xs
take-past n m xs h l = take_of_length_le n xs h ∙ sym (take_of_length_le m xs l)

-- what is sent begins with the block that this round reads
take-sent_of :
    (ups downs : List ℕ)
    → stops (length ups) (length downs) ≡ false
    → (let n = sent_of (length ups) (length downs) in
        let m = sent_of (length ups - 1024) (length downs - 1024) in
        (take n ups ≡ take 1024 ups ++ take m (drop 1024 ups))
        × (take n downs ≡ take 1024 downs ++ take m (drop 1024 downs)))
take-sent_of ups downs h = elim (sent_of-go (length ups) (length downs) h) [
  | inl e ↦ (
    ap (λ n. take n ups) e ∙ sym (take-append-take-drop 1024 _ ups),
    ap (λ n. take n downs) e ∙ sym (take-append-take-drop 1024 _ downs),
  )
  | inr (same, short, e, z) ↦ (
    take-past _ (1024 + sent_of (length ups - 1024) (length downs - 1024)) ups (omega arith)
          (omega arith)
        ∙ sym (take-append-take-drop 1024 _ ups),
    take-past _ (1024 + sent_of (length ups - 1024) (length downs - 1024)) downs (omega arith)
          (omega arith)
        ∙ sym (take-append-take-drop 1024 _ downs),
  )
]

shorter :
    (fuel : ℕ) (ups downs : List ℕ)
    → length ups < suc fuel
    → stops (length ups) (length downs) ≡ false
    → length (drop 1024 ups) < fuel
shorter fuel ups downs l go =
    let some_left : length ups ≢ 0 = ground arith in rw (length-drop 1024 ups) (omega arith)

same_block :
    (ups downs : List ℕ)
    → stops (length ups) (length downs) ≡ false
    → length (take 1024 ups) ≡ length (take 1024 downs)
same_block ups downs go = rw (length-take 1024 ups, length-take 1024 downs) (ground arith)

-- What the loop comes to: files of one length whose reads both fail make it leave its buffers.
unfoldable pub outcome_of : Bool → Bool → List ℕ → List ℕ → Played
outcome_of up_fails down_fails ups downs =
    let n = sent_of (length ups) (length downs) in
    if (up_fails && down_fails) && (length ups == length downs)
    then overrun
    else played (mix (take n ups) (take n downs))

-- What the two reads of a round return, with `u` and `d` bytes left.
module _ (a b : Bool) (u d : ℕ) where
  abbrev leaves : Bool
  leaves = (read_len a u != read_len b d) || (read_len a u == 0)

  reads_go : stops u d ≡ false → (leaves ≡ false) × (ltb 1024 (read_len a u) ≡ false)
  reads_go go = (ground arith, ground arith)

  reads_stop : stops u d ≡ true → ((a && b) && (u == d)) ≡ false → leaves ≡ true
  reads_stop stop fine = ground arith

  reads_fail :
      stops u d ≡ true
      → ((a && b) && (u == d)) ≡ true
      → (leaves ≡ false) × (ltb 1024 (read_len a u) ≡ true)
  reads_fail stop bad = (ground arith, ground arith)

  same_left : stops u d ≡ false → (u - 1024 == d - 1024) ≡ (u == d)
  same_left go = elim (Bool-cases (u == d)) [
    | inl same ↦
        let e : u ≡ d = ==→eq u d same in
        let e' : (u - 1024 == d - 1024) ≡ true = eq→== _ _ (omega (arith, e)) in e' ∙ sym same
    | inr other ↦
        let ne : u - 1024 ≢ d - 1024 = λ e. apart (ground arith) (not_==→ne u d other) e in
        ne→not_== _ _ ne ∙ sym other
  ]
    where
      apart : min 1024 u ≡ min 1024 d → u ≢ d → u - 1024 ≢ d - 1024
      apart m ne e = omega (arith, m, ne, e)

one_block :
    (up_fails down_fails : Bool) (ups downs : List ℕ)
    → stops (length ups) (length downs) ≡ false
    → prepend
        (mix (take 1024 ups) (take 1024 downs))
        (outcome_of up_fails down_fails (drop 1024 ups) (drop 1024 downs))
      ≡ outcome_of up_fails down_fails ups downs
unfolding outcome_of
one_block up_fails down_fails ups downs go =
    let (u, d) = take-sent_of ups downs go in
    let same : (length (drop 1024 ups) == length (drop 1024 downs)) ≡ (length ups == length downs) =
      rw (length-drop 1024 ups, length-drop 1024 downs)
        (same_left up_fails down_fails (length ups) (length downs) go) in
    elim (Bool-cases ((up_fails && down_fails) && (length ups == length downs))) [
      | inl bad ↦ rw (same, bad) refl
      | inr fine ↦
          rw (same, fine, u, d)
            (ap played (
              rw (length-drop 1024 ups, length-drop 1024 downs)
                (sym (mix-append _ _ _ _ (same_block ups downs go)))))
    ]

stop_block :
    (up_fails down_fails : Bool) (ups downs : List ℕ)
    → stops (length ups) (length downs) ≡ true
    → ((up_fails && down_fails) && (length ups == length downs)) ≡ false
    → outcome_of up_fails down_fails ups downs ≡ played []
unfolding outcome_of mix
stop_block up_fails down_fails ups downs stop fine =
    rw (fine, sent_of-stop (length ups) (length downs) stop) refl

-- Of two files whose lengths differ, `file_tx_thread` sends whole blocks of 1024 bytes only, although it
-- has announced twice the length of the shorter one; of files of one length it sends everything,
-- interleaved byte by byte; but if the reads behind the last bytes of two such files both fail, it
-- leaves its buffers. One round more than there are bytes is enough.
pub play_loop-sent_of :
    (fuel : ℕ) (up_fails down_fails : Bool) (ups downs : List ℕ)
    → length ups < fuel
    → play_loop fuel up_fails down_fails ups downs ≡ outcome_of up_fails down_fails ups downs
unfolding play_loop outcome_of
play_loop-sent_of zero up_fails down_fails ups downs l = absurd (omega arith)
play_loop-sent_of (suc fuel) up_fails down_fails ups downs l =
    elim (Bool-cases (stops (length ups) (length downs))) [
      | inl stop ↦ elim (Bool-cases ((up_fails && down_fails) && (length ups == length downs))) [
        | inl bad ↦
            let (stays, much) =
              reads_fail up_fails down_fails (length ups) (length downs) stop bad in
            rw (stays, much, outcome_of, bad) refl
        | inr fine ↦
            rw (reads_stop up_fails down_fails (length ups) (length downs) stop fine)
              (sym (stop_block up_fails down_fails ups downs stop fine))
      ]
      | inr go ↦
          let (stays, few) = reads_go up_fails down_fails (length ups) (length downs) go in
          rw (stays, few)
            (ap (prepend (mix (take 1024 ups) (take 1024 downs))) (
                play_loop-sent_of fuel up_fails down_fails (drop 1024 ups) (drop 1024 downs)
                  (shorter fuel ups downs l go))
              ∙ one_block up_fails down_fails ups downs go)
    ]

pub fine_outcome :
    (up_fails down_fails : Bool) (ups downs : List ℕ)
    → (up_fails && down_fails) ≡ false
    → (let n = sent_of (length ups) (length downs) in
        outcome_of up_fails down_fails ups downs ≡ played (mix (take n ups) (take n downs)))
unfolding outcome_of
fine_outcome up_fails down_fails ups downs reads = rw reads refl
