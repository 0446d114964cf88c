-- ===== src/Voice/Tables.antt =====
-- `voice_parser` of src/voice_parser.c at the whole table: which slot a packet changes, and when it is
-- turned away.
use vpu.Common.{
  ℕ, ◌<◌, ◌≡◌, ◌≢◌, true, false, Bool-cases, inl, inr, List, ltb, ◌==◌, ◌||◌, ◌⊎◌, not, byte_at,
  arith, if_keeps, ltb→lt,
}
use vpu.Voice.{VoiceFile, World}
use vpu.Voice.Slots.{Slot, slot_of, get_file_struct_total, Table, same_slot, store}
use vpu.Voice.Parser.{
  Env, header_of, locked_part, parsed, not_voice, too_much, Voices, voice_parser,
}
use vpu.Voice.Bounds.{InBounds, locked_part-InBounds}

abbrev pub AllInBounds : Table → Type 0
AllInBounds table = (s : Slot) → InBounds (table s)

store-InBounds :
    (s : Slot) (f : VoiceFile) (table : Table)
    → InBounds f
    → AllInBounds table
    → AllInBounds (store s f table)
unfolding store
store-InBounds s f table h all t = if_keeps InBounds (same_slot s t) h (all t)

-- the slot of the packet's call, with the counters and effects
abbrev pub world_of : List ℕ → Voices → World
world_of pkt v = record {
  file = v.table (slot_of (header_of pkt).callid);
  count = v.count;
  out = v.out;
}

-- what `voice_parser` does with a packet that it accepts
abbrev pub accepted : Env → List ℕ → Voices → Voices
accepted env pkt v =
    let w = locked_part env (header_of pkt) pkt (world_of pkt v) in
    record {
      table = store (slot_of (header_of pkt).callid) w.file v.table;
      count = w.count;
      out = w.out;
    }

wrong_packet : (a b : ℕ) → (ltb a 36 || not (b == 3)) ≡ true → (a < 36) ⊎ (b ≢ 3)
wrong_packet a b h = ground arith

-- A packet is turned away, and changes nothing, if it is shorter than 36 bytes, is no voice packet or
-- claims more than 1024 bytes of voice; any other one is parsed at the slot of its call id.
pub voice_parser_cases :
    (env : Env) (pkt : List ℕ) (pkt_len : ℕ) (v : Voices)
    → (((pkt_len < 36) ⊎ (byte_at pkt 16 ≢ 3)) × (voice_parser env pkt pkt_len v ≡ (not_voice, v)))
      ⊎ ((1024 < (header_of pkt).data_len) × (voice_parser env pkt pkt_len v ≡ (too_much, v)))
      ⊎ (voice_parser env pkt pkt_len v ≡ (parsed, accepted env pkt v))
unfolding voice_parser
voice_parser_cases env pkt pkt_len v =
    elim (Bool-cases (ltb pkt_len 36 || not (byte_at pkt 16 == 3))) [
      | inl wrong ↦ inl (wrong_packet _ _ wrong, rw wrong)
      | inr right ↦ elim (Bool-cases (ltb 1024 (header_of pkt).data_len)) [
        | inl much ↦ inr (inl (ltb→lt _ _ much, rw (right, much)))
        | inr fits ↦ inr (inr (rw (right, fits, (get_file_struct_total (header_of pkt).callid).0)))
      ]
    ]

-- A packet changes no slot but that of its call.
pub voice_parser-isolated :
    (env : Env) (pkt : List ℕ) (pkt_len : ℕ) (v : Voices) (t : Slot)
    → same_slot (slot_of (header_of pkt).callid) t ≡ false
    → (voice_parser env pkt pkt_len v).1.table t ≡ v.table t
unfolding store
voice_parser-isolated env pkt pkt_len v t other = elim (voice_parser_cases env pkt pkt_len v) [
  | inl (why, e) ↦ rw e
  | inr (inl (why, e)) ↦ rw e
  | inr (inr e) ↦ rw (e, other)
]

pub voice_parser-InBounds :
    (env : Env) (pkt : List ℕ) (pkt_len : ℕ) (v : Voices)
    → AllInBounds v.table
    → AllInBounds (voice_parser env pkt pkt_len v).1.table
voice_parser-InBounds env pkt pkt_len v all = elim (voice_parser_cases env pkt pkt_len v) [
  | inl (why, e) ↦ rw e all
  | inr (inl (why, e)) ↦ rw e all
  | inr (inr e) ↦ rw e (
      store-InBounds (slot_of (header_of pkt).callid) _ v.table
        (locked_part-InBounds env (header_of pkt) pkt (world_of pkt v)
          (all (slot_of (header_of pkt).callid)))
        all)
]
