-- ===== src/Server/Settled.antt =====
-- What `file_tx_thread` of src/file_server.c answers, and when it closes the connection.
use vpu.Common.{
  be32, ==→eq, not_==→ne, ℕ, ◌≤◌, ◌<◌, ◌≡◌, ◌≢◌, refl, ◌∙◌, ap, ◌⊎◌, inl, inr, Bool, true, false,
  Bool-cases, Option-cases, not_ltb→le, Option, none, some, List, [], ◌∷◌, ◌++◌, ltb, ◌==◌, ◌!=◌,
  ◌&&◌, ◌||◌, arith, length, take,
}
use vpu.Voice.Files.{mix}
use vpu.Voice.{encrypt_voice}
use vpu.Voice.Parser.{read_le64}
use vpu.Voice.Slots.{slot_of, get_file_struct_total}
use vpu.Server.{
  check_voice_file, get_fax_pic_info, Outside, Reply, Request, serve, value, bytes, Where,
  send_pics, Picture, behind, send_result, send_voice_size, send_faxpic_size, serve_voice,
  serve_live, serve_fax,
}
use vpu.Server.Serve.{sent_of, play_loop-sent_of, fine_outcome}

-- No picture that is opened has a read that fails.
abbrev pub AllRead : List (Option Picture) → Type 0
AllRead [] = Unit {0}
AllRead (none ∷ opened) = AllRead opened
AllRead (some (bytes, fails) ∷ opened) = (fails ≡ false) × AllRead opened

-- Each picture that is opened, behind the four bytes of its size.
abbrev pub pictures_of : List ℕ → List (Option Picture) → List ℕ
pictures_of [] opened = []
pictures_of (size ∷ sizes) [] = []
pictures_of (size ∷ sizes) (none ∷ opened) = pictures_of sizes opened
pictures_of (size ∷ sizes) (some (bytes, fails) ∷ opened) =
    encrypt_voice (be32 size) ++ bytes ++ pictures_of sizes opened

send_pics-pictures_of :
    (sizes : List ℕ) (opened : List (Option Picture))
    → AllRead opened
    → send_pics sizes opened ≡ some (pictures_of sizes opened)
unfolding send_pics
send_pics-pictures_of [] opened reads = refl
send_pics-pictures_of (size ∷ sizes) [] reads = refl
send_pics-pictures_of (size ∷ sizes) (none ∷ opened) reads =
    send_pics-pictures_of sizes opened reads
send_pics-pictures_of (size ∷ sizes) (some (pic, fails) ∷ opened) (fine, reads) =
    rw fine
      (ap (behind (encrypt_voice (be32 size) ++ pic)) (send_pics-pictures_of sizes opened reads))

-- The answers on the wire: a result is of type 2 and length 2, the size of a voice of type 3, that of pictures of type 4.
abbrev pub refusal : Reply
refusal = record { sent = 0 ∷ 2 ∷ 0 ∷ 2 ∷ 0 ∷ 0 ∷ []; closed = true; player = none }

abbrev pub accepted : ℕ → ℕ → List ℕ → List ℕ
accepted type size bytes =
    (0 ∷ 2 ∷ 0 ∷ 2 ∷ 0 ∷ 1 ∷ []) ++ ((0 ∷ type ∷ 0 ∷ 4 ∷ []) ++ be32 size) ++ bytes

-- For a recorded call: the announced size, and of the files what `sent_of` says, and the end; or a refusal, if there
-- is no pair of files or one of the two cannot be opened.
abbrev pub Recorded : Outside → ℕ → Reply → Type 0
Recorded o scase reply =
    ((dir : Where) × (i size : ℕ) × (ups downs : List ℕ) × (check_voice_file scase o.cases o.normals
        ≡ some (dir, i, size))
      × (o.up_file ≡ some ups)
      × (o.down_file ≡ some downs)
      × (let n = sent_of (length ups) (length downs) in
          reply ≡ record {
            sent = accepted 3 size (mix (take n ups) (take n downs));
            closed = true;
            player = none;
          }))
    ⊎ (((check_voice_file scase o.cases o.normals ≡ none)
          ⊎ ((o.up_file ≡ none) ⊎ (o.down_file ≡ none)))
        × (reply ≡ refusal))

-- For a call that is going on: the connection becomes the player of its slot; or a refusal, if the slot has one.
abbrev pub Live : Outside → ℕ → Reply → Type 0
Live o callid reply =
    ((o.tx_fd (slot_of callid) ≡ 0)
      × (reply ≡ record {
        sent = accepted 3 0xffffffff [];
        closed = false;
        player = some (slot_of callid);
      }))
    ⊎ ((o.tx_fd (slot_of callid) ≢ 0) × (reply ≡ refusal))

-- For a fax: the announced size, and the pictures that can be opened, and the end; or a refusal, if the call has
-- no pair of files or no picture.
abbrev pub Pictures : Outside → ℕ → Reply → Type 0
Pictures o scase reply =
    ((dir : Where) × (i size : ℕ) × (check_voice_file scase o.cases o.normals ≡ some (dir, i, size))
      × (length (get_fax_pic_info o.pic_up o.pic_down).0 ≢ 0)
      × (let (sizes, data_size) = get_fax_pic_info o.pic_up o.pic_down in
          reply ≡ record {
            sent = accepted 4 data_size (pictures_of sizes o.pics);
            closed = true;
            player = none;
          }))
    ⊎ (((check_voice_file scase o.cases o.normals ≡ none)
          ⊎ (length (get_fax_pic_info o.pic_up o.pic_down).0 ≡ 0))
        × (reply ≡ refusal))

-- which branch of `file_tx_thread` takes a request
abbrev pub is_voice : Request → Bool
is_voice r = (value r.stype == 0) && (value r.stime == 0)

abbrev pub is_live : Request → Bool
is_live r = value r.stime == 1

abbrev pub is_fax : Request → Bool
is_fax r = (value r.stime != 1) && (value r.stype == 1)

RecordedBy : Outside → ℕ → Option Reply → Type 0
RecordedBy o scase r = (reply : Reply) × (r ≡ some reply) × Recorded o scase reply

serve_voice-Recorded :
    (fuel : ℕ) (o : Outside) (scase : ℕ)
    → ((ups : List ℕ) → o.up_file ≡ some ups → length ups < fuel)
    → (o.up_fails && o.down_fails) ≡ false
    → RecordedBy o scase (serve_voice fuel o scase)
unfolding serve_voice RecordedBy send_result send_voice_size
serve_voice-Recorded fuel o scase enough reads =
    elim (Option-cases (check_voice_file scase o.cases o.normals)) [
      | inl e ↦ rw (e, serve_voice) (refusal, refl, inr (inl refl, refl))
      | inr ((dir, i, size), e) ↦ elim (Option-cases o.up_file) [
        | inl u ↦ rw (e, u, serve_voice) (refusal, refl, inr (inr (inl refl), refl))
        | inr (ups, u) ↦ elim (Option-cases o.down_file) [
          | inl d ↦ rw (e, u, d, serve_voice) (refusal, refl, inr (inr (inr refl), refl))
          | inr (downs, d) ↦
              rw
                (
                  e,
                  u,
                  d,
                  serve_voice,
                  play_loop-sent_of fuel o.up_fails o.down_fails ups downs (enough ups u)
                      ∙ fine_outcome o.up_fails o.down_fails ups downs reads,
                )
                (_, refl, inl (dir, i, size, ups, downs, refl, refl, refl, refl))
        ]
      ]
    ]

serve_live-Live : (o : Outside) (callid : ℕ) → Live o callid (serve_live o callid)
unfolding serve_live send_result send_voice_size
serve_live-Live o callid =
    rw ((get_file_struct_total callid).0, serve_live)
      (elim (Bool-cases (ltb 0 (o.tx_fd (slot_of callid)))) [
        | inl e ↦ rw e (inr (ground arith, refl))
        | inr e ↦
            let l : o.tx_fd (slot_of callid) ≤ 0 = not_ltb→le _ _ e in
            rw e (inl (omega arith, refl))
      ])

PicturesBy : Outside → ℕ → Option Reply → Type 0
PicturesBy o scase r = (reply : Reply) × (r ≡ some reply) × Pictures o scase reply

serve_fax-Pictures :
    (o : Outside) (scase : ℕ) → AllRead o.pics → PicturesBy o scase (serve_fax o scase)
unfolding serve_fax PicturesBy send_result send_faxpic_size
serve_fax-Pictures o scase reads = elim (Option-cases (check_voice_file scase o.cases o.normals)) [
  | inl e ↦ rw (e, serve_fax) (refusal, refl, inr (inl refl, refl))
  | inr ((dir, i, size), e) ↦
      elim (Bool-cases (length (get_fax_pic_info o.pic_up o.pic_down).0 == 0)) [
        | inl z ↦ rw (e, z, serve_fax) (refusal, refl, inr (inr (==→eq _ _ z), refl))
        | inr z ↦
            rw
              (
                e,
                z,
                serve_fax,
                send_pics-pictures_of (get_fax_pic_info o.pic_up o.pic_down).0 o.pics reads,
              )
              (_, refl, inl (dir, i, size, refl, not_==→ne _ _ z, refl))
      ]
]

-- Once a request has been parsed, `file_tx_thread` comes to its end, with fuel for every byte of the up
-- file, if the reads of the two files do not fail both, and none of an open picture does; and it answers as the request asks for. A recorded call: the result 1, the
-- announced size, the two files interleaved as far as `sent_of` says, and the connection closed. A call that is going
-- on: the result 1, the greatest size, and the connection given to the slot of this call, which had no player.
-- The pictures of a fax: the result 1, their size, those that can be opened, and the connection closed. Where that
-- cannot be: the result 0 and the connection closed. A request of another type is not answered, and its connection is
-- neither closed nor given away.
pub serve-Settled :
    (fuel : ℕ) (o : Outside) (r : Request)
    → ((ups : List ℕ) → o.up_file ≡ some ups → length ups < fuel)
    → (o.up_fails && o.down_fails) ≡ false
    → AllRead o.pics
    → (reply : Reply) × (serve fuel o r ≡ some reply)
      × (is_voice r ≡ true → Recorded o (value r.scase) reply)
      × (is_live r ≡ true → Live o (read_le64 (bytes r.callid) 0) reply)
      × (is_fax r ≡ true → Pictures o (value r.scase) reply)
      × ((is_voice r || (is_live r || is_fax r)) ≡ false
          → reply ≡ record { sent = []; closed = false; player = none })
unfolding serve RecordedBy PicturesBy
serve-Settled fuel o r enough reads pics =
    elim (Bool-cases ((value r.stype == 0) && (value r.stime == 0))) [
      | inl voice ↦
          let (reply, e, recorded) = serve_voice-Recorded fuel o (value r.scase) enough reads in
          rw voice (
            reply,
            e,
            λ h. recorded,
            λ h. absurd (ground arith),
            λ h. absurd (ground arith),
            λ h. absurd (ground arith),
          )
      | inr other ↦ elim (Bool-cases (value r.stime == 1)) [
        | inl live ↦
            rw (other, live)
              (
                _,
                refl,
                λ h. absurd (ground arith),
                λ h. serve_live-Live o _,
                λ h. absurd (ground arith),
                λ h. absurd (ground arith),
              )
        | inr later ↦ elim (Bool-cases (value r.stype == 1)) [
          | inl fax ↦
              let (reply, e, pictures) = serve_fax-Pictures o (value r.scase) pics in
              rw (other, later, fax)
                (
                  reply,
                  e,
                  λ h. absurd (ground arith),
                  λ h. absurd (ground arith),
                  λ h. pictures,
                  λ h. absurd (ground arith),
                )
          | inr neither ↦
              rw (other, later, neither)
                (
                  _,
                  refl,
                  λ h. absurd (ground arith),
                  λ h. absurd (ground arith),
                  λ h. absurd (ground arith),
                  λ h. refl,
                )
        ]
      ]
    ]
