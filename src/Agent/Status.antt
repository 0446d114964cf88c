-- ===== src/Agent/Status.antt =====
-- `ma_cmd_software_status` of src/conn_serv.c: the status of a fax machine, which the management agent sends.
use vpu.Common.{
  ℕ, zero, suc, ◌+◌, ◌-◌, ◌%◌, ◌^◌, Bool, true, false, Option, none, some, List, [], ◌∷◌, ◌++◌, ltb,
  ◌==◌, if◌then◌else◌, ◌&&◌, byte_at, read_be16, read_be32, length, drop,
}
use vpu.Agent.{Ending, returned0, returned_1, overread}

-- How the function ends: as the others do, or with -2.
pub data StatusEnding : Type 0 where
  ends : Ending → StatusEnding
  returned_2 : StatusEnding

-- `memcmp(data, "vpu", 3) == 0`, and the same for "fpu"
abbrev pub is_vpu : List ℕ → Bool
is_vpu mem = byte_at mem 0 == 118 && (byte_at mem 1 == 112 && byte_at mem 2 == 117)

abbrev pub is_fpu : List ℕ → Bool
is_fpu mem = byte_at mem 0 == 102 && (byte_at mem 1 == 112 && byte_at mem 2 == 117)

-- `status` and `fax_id`
pub record Status : Type 0 where
  pub status : ℕ
  pub fax_id : ℕ

-- how the inner loop ends: it is over, or the function returns
pub data Inner : Type 0 where
  inner_done : Status → Inner
  returns : StatusEnding → Inner

-- what a field of the inner loop does, where `mem` is the memory from its data on
unfoldable pub inner_field : ℕ → ℕ → List ℕ → Status → Inner
inner_field sub_type sub_length mem s =
    if sub_type == 1 && sub_length == 4
    then (if ltb (length mem) 4
        then returns (ends overread)
        else inner_done (record s { status = read_be32 mem 0 }))
    else if sub_type == 2
    then inner_done s
    else if sub_type == 3
    then (if ltb (length mem) 3
        then returns (ends overread)
        else if is_fpu mem
        then inner_done s
        else returns returned_2)
    else if sub_type == 4 && sub_length == 4
    then (if ltb (length mem) 4
        then returns (ends overread)
        else inner_done (record s { fax_id = read_be32 mem 0 }))
    else returns (ends returned0)

-- The inner loop, on fuel; each round takes four bytes of `sub_left` at least.
unfoldable pub inner_loop : ℕ → List ℕ → ℕ → Status → Option Inner
inner_loop zero mem sub_left s = none
inner_loop (suc fuel) mem sub_left s =
    let sub_type = read_be16 mem 0 in
    let sub_length = read_be16 mem 2 in
    let rest = inner_loop fuel (drop (4 + sub_length) mem) (sub_left - 4 - sub_length) in
    if ltb sub_left 4
    then some (inner_done s)
    else if ltb (length mem) 4
    then some (returns (ends overread))
    else if ltb (sub_left - 4) sub_length
    then some (returns (ends returned_1))
    else elim (inner_field sub_type sub_length (drop 4 mem) s) [
      | inner_done s' ↦ rest s'
      | returns e ↦ some (returns e)
    ]

-- The outer loop, on fuel, with the calls of `change_fax_status` so far. As in `ma_cmd_reload`, the length of a field
-- is added to `left`, a uint32_t.
unfoldable pub status_loop :
    ℕ → List ℕ → ℕ → Bool → Status → List Status → Option (StatusEnding × List Status)
status_loop zero mem left vpu_flag s calls = none
status_loop (suc fuel) mem left vpu_flag s calls =
    let type = read_be16 mem 0 in
    let len = read_be16 mem 2 in
    let inner = inner_loop (suc len) (drop 4 mem) len s in
    let rest = status_loop fuel (drop (4 + len) mem) ((left - 4 + len) % 2 ^ 32) in
    if ltb left 4
    then some (ends returned0, calls)
    else if ltb (length mem) 4
    then some (ends overread, calls)
    else if ltb (left - 4) len
    then some (ends returned_1, calls)
    else if type == 1
    then (if ltb (length mem) 7
        then some (ends overread, calls)
        else if is_vpu (drop 4 mem)
        then rest true s calls
        else some (returned_2, calls))
    else if type == 2 && vpu_flag
    then (elim inner [
      | none ↦ none
      | some (inner_done s') ↦ rest vpu_flag s' (calls ++ (s' ∷ []))
      | some (returns e) ↦ some (e, calls)
    ])
    else some (ends returned_1, calls)

-- `ma_cmd_software_status`; `mem` is the memory from `data` on
unfoldable pub ma_cmd_software_status : ℕ → List ℕ → ℕ → Option (StatusEnding × List Status)
ma_cmd_software_status fuel mem data_len =
    if ltb data_len 4
    then some (ends returned0, [])
    else status_loop fuel mem data_len false (record { status = 0; fax_id = 0 }) []
