-- ===== src/Voice/Stream.antt =====
-- What src/voice_parser.c keeps of the voice that a packet carries, and that its encryption can be undone.
use Prim.Native.Nat.{bit_xor}
use vpu.Common.{
  false, ℕ, zero, suc, ◌+◌, ◌-◌, ◌%◌, ◌≤◌, ◌<◌, ◌≡◌, refl, sym, ◌∙◌, ap, Bool, true, Bool-cases,
  inl, inr, List, [], ◌∷◌, ◌++◌, ltb, leb, ◌==◌, if◌then◌else◌, length, length-map, take, blit,
  take-blit, take_of_length_le, arith, byte_at,
}
use vpu.Voice.{VoiceFile, World, bytes_from, encrypt_voice}
use vpu.Voice.Files.{write_voice_file, send_voice_data}
use vpu.Voice.Parser.{
  Env, Header, flush, number_up, number_down, buffer_up, buffer_down, fax_data_up, fax_data_down,
  store_up, store_down, room_up, room_down,
}
use vpu.Voice.Bounds.{InBounds, flush-InBounds, number_up-InBounds, number_down-InBounds}

-- a byte that has gone through the exclusive or of `encrypt_voice` twice
abbrev back : ℕ → ℕ
back x = bit_xor (bit_xor x 0x53) 0x53

-- whether each number below `n` comes back
unfoldable comes_back : ℕ → Bool
comes_back zero = true
comes_back (suc n) = if back n == n then comes_back n else false

bytes_come_back : comes_back 256 ≡ true
unfolding comes_back
bytes_come_back = refl

back_lem : (n x : ℕ) → comes_back n ≡ true → x < n → back x ≡ x
unfolding comes_back
back_lem zero x h below = absurd (omega arith)
back_lem (suc n) x h below = ground (arith, back_lem n x)

abbrev pub AllBytes : List ℕ → Type 0
AllBytes [] = Unit {0}
AllBytes (x ∷ xs) = (x < 256) × AllBytes xs

-- Encrypting twice gives the bytes back: a reader of the file undoes what `encrypt_voice` did.
pub encrypt_voice_twice : (xs : List ℕ) → AllBytes xs → encrypt_voice (encrypt_voice xs) ≡ xs
unfolding encrypt_voice
encrypt_voice_twice [] h = refl
encrypt_voice_twice (x ∷ xs) h =
    let e : bit_xor (bit_xor x 0x53) 0x53 ≡ x = back_lem 256 x bytes_come_back h.0 in
    ap (λ y. y ∷ encrypt_voice (encrypt_voice xs)) e ∙ ap (λ l. x ∷ l) (encrypt_voice_twice xs h.1)

length-bytes_from : (pkt : List ℕ) (i n : ℕ) → length (bytes_from pkt i n) ≡ n
length-bytes_from pkt i zero = refl
length-bytes_from pkt i (suc n) = ap suc (length-bytes_from pkt (i + 1) n)

take-bytes_from :
    (pkt : List ℕ) (i m n : ℕ) → m ≤ n → take m (bytes_from pkt i n) ≡ bytes_from pkt i m
take-bytes_from pkt i zero n h = refl
take-bytes_from pkt i (suc m) zero h = absurd (omega arith)
take-bytes_from pkt i (suc m) (suc n) h =
    ap (λ l. byte_at pkt i ∷ l) (take-bytes_from pkt (i + 1) m n (omega arith))

length-encrypt : (xs : List ℕ) → length (encrypt_voice xs) ≡ length xs
unfolding encrypt_voice
length-encrypt xs = length-map (λ b. bit_xor b 0x53) xs

-- the voice of a packet
abbrev pub payload : Header → List ℕ → List ℕ
payload hdr pkt = bytes_from pkt 37 hdr.data_len

-- what the buffer of the up direction holds
abbrev pub held_up : VoiceFile → List ℕ
held_up f = take f.data_count_up f.data_up

abbrev pub held_down : VoiceFile → List ℕ
held_down f = take f.data_count_down f.data_down

blit_stream :
    (buf : List ℕ) (count n : ℕ) (pkt : List ℕ)
    → count + n ≤ length buf
    → take (count + n) (blit buf count (encrypt_voice (bytes_from pkt 37 n)))
      ≡ take count buf ++ encrypt_voice (bytes_from pkt 37 n)
blit_stream buf count n pkt h =
    let bytes = encrypt_voice (bytes_from pkt 37 n) in
    let e : n ≡ length bytes =
      omega (arith, length-encrypt (bytes_from pkt 37 n), length-bytes_from pkt 37 n) in
    ap (λ k. take (count + k) (blit buf count bytes)) e
    ∙ take-blit buf count bytes (omega (arith, e))

take-bytes_from_any :
    (pkt : List ℕ) (i m n : ℕ)
    → take m (bytes_from pkt i n) ≡ bytes_from pkt i (if ltb m n then m else n)
take-bytes_from_any pkt i m n = elim (Bool-cases (ltb m n)) [
  | inl less ↦ rw less (take-bytes_from pkt i m n (ground arith))
  | inr more ↦
      rw more (take_of_length_le m (bytes_from pkt i n) (ground (arith, length-bytes_from pkt i n)))
]

buffer_up-stream :
    (hdr : Header) (pkt : List ℕ) (w : World)
    → InBounds w.file
    → held_up (buffer_up hdr pkt w).file
      ≡ held_up w.file ++ encrypt_voice (take (8192 - w.file.data_count_up) (payload hdr pkt))
unfolding buffer_up
buffer_up-stream hdr pkt w v =
    let n = room_up hdr w.file in
    blit_stream w.file.data_up w.file.data_count_up n pkt (ground arith)
    ∙ ap (λ l. held_up w.file ++ encrypt_voice l)
        (sym (take-bytes_from_any pkt 37 (8192 - w.file.data_count_up) hdr.data_len))

flush-up :
    (env : Env) (w : World)
    → (held_up (flush env w).file ≡ []) × ((flush env w).file.data_count_up ≡ 0)
unfolding flush write_voice_file send_voice_data
flush-up env w = (refl, refl)

fax_data_up-held :
    (n : ℕ) (pkt : List ℕ) (w : World) → held_up (fax_data_up n pkt w).file ≡ held_up w.file
unfolding fax_data_up
fax_data_up-held n pkt w = ground arith

-- the bytes that stay in the buffer when the packet comes: none if the buffer was full
abbrev pub kept_up : VoiceFile → List ℕ
kept_up f = if leb 8192 f.data_count_up then [] else held_up f

-- A packet of the up direction adds to the buffer, behind what stays there, its voice from the first byte
-- on, encrypted, but only as much as there is room for: the rest of the packet is dropped.
pub store_up-stream :
    (env : Env) (hdr : Header) (pkt : List ℕ) (w : World)
    → InBounds w.file
    → held_up (store_up env hdr pkt w).file
      ≡ kept_up w.file
        ++ encrypt_voice (take (8192 - w.file.data_count_up % 8192) (payload hdr pkt))
unfolding store_up number_up
store_up-stream env hdr pkt w v =
    let w1 = number_up hdr w in
    let v1 = number_up-InBounds hdr w v in
    elim (Bool-cases (leb 8192 w.file.data_count_up)) [
      | inl full ↦
          let w2 = flush env w1 in
          let (nothing, zeroed) = flush-up env w1 in
          let e : 8192 - (flush env w1).file.data_count_up ≡ 8192 - w.file.data_count_up % 8192 =
            ground arith in
          rw full (
            fax_data_up-held (room_up hdr w2.file) pkt (buffer_up hdr pkt w2)
            ∙ buffer_up-stream hdr pkt w2 (flush-InBounds env w1 v1)
            ∙ ap (λ l. l ++ encrypt_voice (take (8192 - w2.file.data_count_up) (payload hdr pkt)))
                nothing
            ∙ ap (λ k. encrypt_voice (take k (payload hdr pkt))) e)
      | inr room ↦
          let e : 8192 - w.file.data_count_up ≡ 8192 - w.file.data_count_up % 8192 = ground arith in
          rw room (
            fax_data_up-held (room_up hdr w1.file) pkt (buffer_up hdr pkt w1)
            ∙ buffer_up-stream hdr pkt w1 v1
            ∙ ap (λ k. held_up w.file ++ encrypt_voice (take k (payload hdr pkt))) e)
    ]

buffer_down-stream :
    (hdr : Header) (pkt : List ℕ) (w : World)
    → InBounds w.file
    → held_down (buffer_down hdr pkt w).file
      ≡ held_down w.file ++ encrypt_voice (take (8192 - w.file.data_count_down) (payload hdr pkt))
unfolding buffer_down
buffer_down-stream hdr pkt w v =
    let n = room_down hdr w.file in
    blit_stream w.file.data_down w.file.data_count_down n pkt (ground arith)
    ∙ ap (λ l. held_down w.file ++ encrypt_voice l)
        (sym (take-bytes_from_any pkt 37 (8192 - w.file.data_count_down) hdr.data_len))

flush-down :
    (env : Env) (w : World)
    → (held_down (flush env w).file ≡ []) × ((flush env w).file.data_count_down ≡ 0)
unfolding flush write_voice_file send_voice_data
flush-down env w = (refl, refl)

fax_data_down-held :
    (n : ℕ) (pkt : List ℕ) (w : World) → held_down (fax_data_down n pkt w).file ≡ held_down w.file
unfolding fax_data_down
fax_data_down-held n pkt w = ground arith

-- the bytes that stay in the buffer when the packet comes: none if the buffer was full
abbrev pub kept_down : VoiceFile → List ℕ
kept_down f = if leb 8192 f.data_count_down then [] else held_down f

-- A packet of the down direction adds to the buffer, behind what stays there, its voice from the first byte
-- on, encrypted, but only as much as there is room for: the rest of the packet is dropped.
pub store_down-stream :
    (env : Env) (hdr : Header) (pkt : List ℕ) (w : World)
    → InBounds w.file
    → held_down (store_down env hdr pkt w).file
      ≡ kept_down w.file
        ++ encrypt_voice (take (8192 - w.file.data_count_down % 8192) (payload hdr pkt))
unfolding store_down number_down
store_down-stream env hdr pkt w v =
    let w1 = number_down hdr w in
    let v1 = number_down-InBounds hdr w v in
    elim (Bool-cases (leb 8192 w.file.data_count_down)) [
      | inl full ↦
          let w2 = flush env w1 in
          let (nothing, zeroed) = flush-down env w1 in
          let e : 8192 - (flush env w1).file.data_count_down
              ≡ 8192 - w.file.data_count_down % 8192 =
            ground arith in
          rw full (
            fax_data_down-held (room_down hdr w2.file) pkt (buffer_down hdr pkt w2)
            ∙ buffer_down-stream hdr pkt w2 (flush-InBounds env w1 v1)
            ∙ ap (λ l. l ++ encrypt_voice (take (8192 - w2.file.data_count_down) (payload hdr pkt)))
                nothing
            ∙ ap (λ k. encrypt_voice (take k (payload hdr pkt))) e)
      | inr room ↦
          let e : 8192 - w.file.data_count_down ≡ 8192 - w.file.data_count_down % 8192 =
            ground arith in
          rw room (
            fax_data_down-held (room_down hdr w1.file) pkt (buffer_down hdr pkt w1)
            ∙ buffer_down-stream hdr pkt w1 v1
            ∙ ap (λ k. held_down w.file ++ encrypt_voice (take k (payload hdr pkt))) e)
    ]
