-- ===== src/Server/Parse.antt =====
-- `cmd_parser` of src/file_server.c: the loop ends, and it reads back what a client writes.
use vpu.Common.{
  be16-read, ℕ, zero, suc, ◌+◌, ◌-◌, ◌<◌, ◌≡◌, refl, Bool-cases, inl, inr, Option, none, some, List,
  [], ◌∷◌, ◌++◌, ltb, leb, ◌!=◌, ◌||◌, arith, be16, read_be16, ltb→lt,
}
use vpu.Server.{
  Request, Fields, unknown, all_read, field, fields_loop, cmd_parser, no_fields, complete, finish,
}

abbrev Ended : {A : Type 0} → Option A → Type 0
Ended none = ⊥
Ended (some x) = Unit {0}

fields_loop-Ended :
    (fuel : ℕ) (buf : List ℕ) (at left : ℕ) (r : Request)
    → left < fuel
    → Ended (fields_loop fuel buf at left r)
unfolding fields_loop
fields_loop-Ended zero buf at left r h = absurd (omega arith)
fields_loop-Ended (suc fuel) buf at left r h = elim (Bool-cases (ltb 4 left)) [
  | inl more ↦
      let l = ltb→lt _ _ more in
      let len = read_be16 buf (at + 2) in
      rw more
        (elim (field buf at r)
          as (λ x. Ended {A = Fields} (elim x as (λ x. Option Fields) [
            | none ↦ some unknown
            | some r' ↦ fields_loop fuel buf (at + len + 4) (left - len - 4) r'
          ])) [
            | none ↦ tt
            | some r' ↦ fields_loop-Ended fuel buf (at + len + 4) (left - len - 4) r' (omega arith)
          ])
  | inr last ↦ rw last tt
]

finish-Ended : (f : Option Fields) → Ended f → (r : Option Request) × (finish f ≡ some r)
finish-Ended none e = absurd e
finish-Ended (some unknown) e = (none, refl)
finish-Ended (some (all_read r)) e = (complete r, refl)

-- `cmd_parser` returns for every buffer: each round of its loop takes at least four bytes off `data_left`.
pub cmd_parser_ends :
    (buf : List ℕ) (buf_len : ℕ)
    → (r : Option Request) × (cmd_parser (suc buf_len) buf buf_len ≡ some r)
unfolding cmd_parser
cmd_parser_ends buf buf_len = elim (Bool-cases (leb buf_len 4)) [
  | inl short ↦ rw short (none, refl)
  | inr long ↦
      rw long (elim (Bool-cases ((read_be16 buf 0 != 1) || (read_be16 buf 2 + 4 != buf_len))) [
        | inl bad ↦ rw bad (none, refl)
        | inr good ↦ rw good (
            finish-Ended (fields_loop (suc buf_len) buf 4 (buf_len - 4) no_fields)
              (fields_loop-Ended (suc buf_len) buf 4 (buf_len - 4) no_fields (omega arith)))
      ])
]

-- The request of a client, with the fields in the order callid, case, time, type.
abbrev pub request_of : List ℕ → ℕ → ℕ → ℕ → List ℕ
request_of callid scase stime stype =
    be16 1
    ++ be16 30
    ++ be16 1
    ++ be16 8
    ++ callid
    ++ be16 2
    ++ be16 2
    ++ be16 scase
    ++ be16 3
    ++ be16 2
    ++ be16 stime
    ++ be16 4
    ++ be16 2
    ++ be16 stype

-- What a client writes is read back: the eight bytes of the call id and the three numbers, whatever lies
-- behind them in the buffer.
pub cmd_parser-request_of :
    (a b c d e f g h scase stime stype : ℕ) (rest : List ℕ)
    → scase < 65536
    → stime < 65536
    → stype < 65536
    → (cmd_parser 35 (request_of (a ∷ b ∷ c ∷ d ∷ e ∷ f ∷ g ∷ h ∷ []) scase stime stype ++ rest) 34
        ≡ some (
            some (record {
              callid = some (a ∷ b ∷ c ∷ d ∷ e ∷ f ∷ g ∷ h ∷ []);
              scase = some scase;
              stime = some stime;
              stype = some stype;
            })))
unfolding cmd_parser fields_loop field
cmd_parser-request_of a b c d e f g h scase stime stype rest l m n =
    rw (be16-read scase l, be16-read stime m, be16-read stype n) refl
