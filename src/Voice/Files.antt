-- ===== src/Voice/Files.antt =====
-- The functions of src/voice_parser.c that open, write and close the files of a call, feed a player,
-- and clean a slot up. Each maps a world to the next one.
use vpu.Common.{
  ℕ, Bool, false, Option, none, some, List, [], ◌∷◌, ◌++◌, ltb, ◌==◌, if◌then◌else◌, is_some, take,
}
use vpu.Voice.{
  voice_buf, VoiceFile, Effect, fwrite, fclose, play, close, enqueue, World, add1, sub1,
}

-- What the file system answers: the disk number of the directory that `get_filename` chooses (`none`
-- where it fails), and what the two calls of fopen return.
pub record FileSystem : Type 0 where
  pub filename : Option ℕ
  pub fopen_up : Option ℕ
  pub fopen_down : Option ℕ

abbrev pub emit : List Effect → World → World
emit es w = record w { out = w.out ++ es }

-- `open_voice_file`: whether it returns 0, and the file
unfoldable pub open_voice_file : FileSystem → VoiceFile → Bool × VoiceFile
open_voice_file fs file =
    if is_some file.fp_up
    then (false, file)
    else if is_some file.fp_down
    then (false, file)
    else elim (fs.filename) [
      | none ↦ (false, file)
      | some disk ↦ (
        if is_some fs.fopen_up then is_some fs.fopen_down else false,
        record file {
          cdr = record (file.cdr) { path = disk };
          fp_up = fs.fopen_up;
          fp_down = fs.fopen_down;
        },
      )
    ]

-- `data_len` of `write_voice_file`: the longer direction, at most the buffers' size
unfoldable pub write_len : VoiceFile → ℕ
write_len file =
    let data_len =
      if ltb file.data_count_down file.data_count_up
      then file.data_count_up
      else file.data_count_down in
    if ltb voice_buf data_len then voice_buf else data_len

abbrev pub write_one : Option ℕ → List ℕ → List Effect
write_one none bytes = []
write_one (some fp) bytes = fwrite fp bytes ∷ []

unfoldable pub write_voice_file : World → World
write_voice_file w =
    let n = write_len w.file in
    emit
      (write_one w.file.fp_up (take n w.file.data_up)
        ++ write_one w.file.fp_down (take n w.file.data_down))
      w

abbrev pub close_one : Option ℕ → List Effect
close_one none = []
close_one (some fp) = fclose fp ∷ []

unfoldable pub close_voice_file : World → World
close_voice_file w =
    emit (close_one w.file.fp_up ++ close_one w.file.fp_down)
      (record w { file = record (w.file) { fp_up = none; fp_down = none } })

-- The loop of `send_voice_data`: the two directions, byte by byte.
unfoldable pub mix : List ℕ → List ℕ → List ℕ
mix [] ys = []
mix (x ∷ xs) [] = []
mix (x ∷ xs) (y ∷ ys) = x ∷ y ∷ mix xs ys

-- `send_voice_data`; `whole` says whether write(2) takes all the bytes.
unfoldable pub send_voice_data : Bool → World → World
send_voice_data whole w =
    if ltb 0 w.file.tx_fd
    then (let sent = play w.file.tx_fd (mix w.file.data_up w.file.data_down) in
        if whole
        then emit (sent ∷ []) w
        else emit (sent ∷ close w.file.tx_fd ∷ [])
            (record w { file = record (w.file) { tx_fd = 0 } }))
    else w

-- `if (file->tx_fd > 0) { close(file->tx_fd); file->tx_fd = 0; }`
unfoldable pub close_player : World → World
close_player w =
    if ltb 0 w.file.tx_fd
    then emit (close w.file.tx_fd ∷ []) (record w { file = record (w.file) { tx_fd = 0 } })
    else w

-- The fax node goes into the fax queue with a copy of the record; the slot lets it go.
unfoldable pub enqueue_node : World → World
enqueue_node w = elim (w.file.cdr_node) [
  | none ↦ w
  | some node ↦ emit (enqueue node w.file.cdr ∷ []) (record w {
    file = record (w.file) { cdr_node = none };
    count = record (w.count) { fax_enqueue = add1 w.count.fax_enqueue };
  })
]

-- the first part of `cleanup_file_struct`: a call that is still open ends by timeout
unfoldable pub end_by_timeout : World → World
end_by_timeout w = if w.file.callid == 0 then w else record w {
  file = record (w.file) { callid = 0 };
  count = record (w.count) {
    call_timeout = add1 w.count.call_timeout;
    call_end = add1 w.count.call_end;
    call_online = sub1 w.count.call_online;
  };
}

unfoldable pub write_and_close : World → World
write_and_close w =
    if is_some w.file.fp_up
    then close_voice_file (write_voice_file w)
    else if is_some w.file.fp_down
    then close_voice_file (write_voice_file w)
    else w

unfoldable pub cleanup_file_struct : World → World
cleanup_file_struct w =
    let w' = close_player (write_and_close (end_by_timeout w)) in
    enqueue_node (record w' { file = record (w'.file) { up_no = 0; down_no = 0 } })
