-- ===== src/Agent/Packets.antt =====
-- The packets of src/conn_serv.c against an independent reader of nested fields.
use vpu.Common.{
  be16-read, ℕ, zero, suc, ◌+◌, ◌*◌, ◌%◌, ◌≤◌, ◌<◌, ◌≡◌, refl, ◌∙◌, ap, false, Option, none, some,
  List, [], ◌∷◌, ◌++◌, ltb, if◌then◌else◌, arith, length, length-take, take, drop, be16, be32, sym,
  take_of_length_le, length-append, take-append_self, drop-append_self, append-nil,
}
use vpu.Agent.{
  vpu_fill_info, Packet, wrap, vpu_fill_regsguard_packet, vpu_fill_alive_packet,
  vpu_fill_regma_packet, get_status,
}

abbrev pub read_more : ℕ × List ℕ → Option (List (ℕ × List ℕ)) → Option (List (ℕ × List ℕ))
read_more f none = none
read_more f (some fs) = some (f ∷ fs)

-- Reads the fields of a byte list one behind the other, each a type, a length and a value; `none` is a
-- list that does not divide so.
unfoldable pub read_fields : ℕ → List ℕ → Option (List (ℕ × List ℕ))
read_fields fuel [] = some []
read_fields zero (a ∷ bytes) = none
read_fields (suc fuel) (a ∷ []) = none
read_fields (suc fuel) (a ∷ b ∷ []) = none
read_fields (suc fuel) (a ∷ b ∷ c ∷ []) = none
read_fields (suc fuel) (a ∷ b ∷ c ∷ d ∷ bytes) =
    let len = c * 256 + d in
    if ltb (length bytes) len
    then none
    else read_more (a * 256 + b, take len bytes) (read_fields fuel (drop len bytes))

-- a field whose value is all that follows
container :
    (type : ℕ) (inner : List ℕ)
    → type < 65536
    → length inner < 65536
    → read_fields 1 (be16 type ++ be16 (length inner) ++ inner) ≡ some ((type, inner) ∷ [])
unfolding read_fields
container type inner t l =
    let whole : take (length inner) inner ≡ inner =
      take_of_length_le (length inner) inner (omega arith) in
    let rest : drop (length inner) inner ≡ [] =
      ap (λ xs. drop (length inner) xs) (sym (append-nil inner)) ∙ drop-append_self inner [] in
    let fits : ltb (length inner) (length inner) ≡ false = ground arith in
    rw (be16-read type t, be16-read (length inner) l, fits, whole, rest) refl

-- a field that `vpu_fill_info` writes is the first that is read
pub read_fields-info :
    (fuel : ℕ) (info rest : List ℕ) (type : ℕ)
    → type < 65536
    → length info < 65536
    → read_fields (suc fuel) (vpu_fill_info info (length info) type ++ rest)
      ≡ read_more (type, info) (read_fields fuel rest)
unfolding read_fields vpu_fill_info
read_fields-info fuel info rest type t l =
    let whole : take (length info) info ≡ info =
      take_of_length_le (length info) info (omega arith) in
    let fits : ltb (length info + length rest) (length info) ≡ false = ground arith in
    rw (whole, be16-read type t, be16-read (length info) l, length-append info rest, fits)
      (rw (take-append_self info rest, drop-append_self info rest) refl)

-- the last one, whose length is cut to a uint16_t
pub last_field :
    (info : List ℕ) (type : ℕ)
    → type < 65536
    → length info < 65536
    → read_fields 1 (vpu_fill_info info (length info % 65536) type) ≡ some ((type, info) ∷ [])
unfolding vpu_fill_info
last_field info type t l =
    let short : length info % 65536 ≡ length info = omega arith in
    rw short (rw (take_of_length_le (length info) info (omega arith)) (container type info t l))

-- the four fields of the registration with the guard
regsguard_fields :
    (pid sn vpu_id : ℕ) (server_ip : List ℕ)
    → length server_ip < 1024
    → read_fields 4 (
        vpu_fill_info (be32 pid) 4 2
        ++ vpu_fill_info (be32 sn) 4 3
        ++ vpu_fill_info (be32 vpu_id) 4 4
        ++ vpu_fill_info server_ip (length server_ip % 65536) 5)
      ≡ some ((2, be32 pid) ∷ (3, be32 sn) ∷ (4, be32 vpu_id) ∷ (5, server_ip) ∷ [])
unfolding vpu_fill_info
regsguard_fields pid sn vpu_id server_ip l =
    let end = vpu_fill_info server_ip (length server_ip % 65536) 5 in
    let end4 = vpu_fill_info (be32 vpu_id) 4 4 ++ end in
    let end3 = vpu_fill_info (be32 sn) 4 3 ++ end4 in
    read_fields-info 3 (be32 pid) end3 2 (omega arith) (omega arith)
    ∙ ap (read_more (2, be32 pid)) (
        read_fields-info 2 (be32 sn) end4 3 (omega arith) (omega arith)
        ∙ ap (read_more (3, be32 sn)) (
            read_fields-info 1 (be32 vpu_id) end 4 (omega arith) (omega arith)
            ∙ ap (read_more (4, be32 vpu_id)) (last_field server_ip 5 (omega arith) (omega arith))))

-- The packet holds one container of the type `type` with the given fields, and the length in its header is
-- the whole packet's.
abbrev pub Carries : ℕ → Packet → ℕ → List (ℕ × List ℕ) → Type 0
Carries size p type fields =
    (p.header.len ≡ size + length p.payload)
    × ((inner : List ℕ) × (read_fields 1 p.payload ≡ some ((type, inner) ∷ []))
        × (read_fields (length fields) inner ≡ some fields))

wrap-Carries :
    (size cmd num type : ℕ) (inner : List ℕ) (fields : List (ℕ × List ℕ))
    → type < 65536
    → size + length inner < 65000
    → read_fields (length fields) inner ≡ some fields
    → Carries size (wrap size cmd num type inner) type fields
unfolding wrap
wrap-Carries size cmd num type inner fields t l f =
    let m : length inner % 65536 ≡ length inner = omega arith in
    rw m (omega arith, (inner, container type inner t (omega arith), f))

-- The packets that register the process with the guard and with the MA, and the one that says that it is
-- alive, are read back field by field: the process id, the number of the VPU, its id and the address of the
-- file server; and the length in the header is right. Sizes stay below that of the buffer.
pub packets-Carries :
    (size num pid sn vpu_id : ℕ) (server_ip : List ℕ)
    → size ≤ 64
    → length server_ip < 1024
    → Carries size
        (vpu_fill_regsguard_packet size num pid sn vpu_id server_ip)
        1
        ((2, be32 pid) ∷ (3, be32 sn) ∷ (4, be32 vpu_id) ∷ (5, server_ip) ∷ [])
      × Carries size (vpu_fill_regma_packet size num pid sn) 2 ((1, be32 pid) ∷ (2, be32 sn) ∷ [])
      × Carries size (vpu_fill_alive_packet size num) 4 ((1, be16 get_status) ∷ [])
unfolding vpu_fill_regsguard_packet vpu_fill_regma_packet vpu_fill_alive_packet vpu_fill_info
    read_fields
packets-Carries size num pid sn vpu_id server_ip h l = (
  wrap-Carries size 16 num 1 _ _ (omega arith)
      (rw (length-take (length server_ip % 65536) server_ip) (omega arith))
      (regsguard_fields pid sn vpu_id server_ip l),
  wrap-Carries size 16 num 2 _ _ (omega arith) (omega arith) refl,
  wrap-Carries size 5 num 4 _ _ (omega arith) (omega arith) refl,
)
