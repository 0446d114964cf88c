-- ===== src/Fax/Decoding.antt =====
-- A round of `fax_pre` in src/fax_decode.c with the decoder in it: what `decode_mem` finds in the two buffers of a
-- node decides what becomes of the node.
use vpu.Common.{
  ℕ, ◌≡◌, ap, Bool, true, false, Option, none, some, List, ◌∷◌, ◌==◌, Bool-cases, inl, inr, arith,
}
use vpu.Tones.{SpanDsp, Line, Modem}
use vpu.Tones.Recording.{Sound, decode_node}
use vpu.Tones.Stale.{Deaf, QuietSound, Ignored, decode_node-Ignored}
use vpu.Queue.{Ptr, null, Heap, Queue, fetch_phead}
use vpu.Queue.Chain.{Holds}
use vpu.Fax.{Try}
use vpu.Fax.Rounds.{FaxState, Decoded, Round, finished, give_back, deliver, decode, fax_round}
use vpu.Fax.Moves.{Apart, Calm, Moved, fax_round-Moved}

-- the two results of `decode_mem` as one: `callflag` is 1 for either
abbrev pub decoded_as : Bool → List Try → Decoded
decoded_as fax tries = record { up = fax; down = false; tries = tries }

-- the round behind the decoding of its node
unfoldable pub decoded_round :
    ℕ → List Try → FaxState → Option (Bool × Line) → Option (Round × Line)
decoded_round thread tries s none = none
decoded_round thread tries s (some (fax, l)) = some (fax_round thread (decoded_as fax tries) s, l)

-- A round for a node whose two ways sound as `up` and `down`; with the state of the decoder behind it.
unfoldable pub decoding_round :
    SpanDsp → ℕ → Sound → Sound → List Try → Line → FaxState → Option (Round × Line)
decoding_round lib thread up down tries l s =
    decoded_round thread tries s (decode_node lib up down l)

given_back : (p : Ptr) (s t : FaxState) → give_back p s ≡ finished t → t.globals ≡ s.globals
unfolding give_back
given_back p s t e = ground arith

-- a round for a node that is no fax leaves the machines alone
no_fax-globals :
    (thread : ℕ) (tries : List Try) (s t : FaxState)
    → fax_round thread (decoded_as false tries) s ≡ finished t
    → t.globals ≡ s.globals
unfolding fax_round decode deliver
no_fax-globals thread tries s t e = at_head (fetch_phead s.fq s.heap) e
  where
    at_head :
        (o : Option (Ptr × Queue × Heap))
        → decode thread (decoded_as false tries) s o ≡ finished t
        → t.globals ≡ s.globals
    at_head none h = absurd (ground arith)
    at_head (some (p, fq, heap)) h = elim (Bool-cases (p == null)) [
      | inl gone ↦ absurd (ground arith)
      | inr node ↦ given_back p _ t (rw node at h)
    ]

-- A fax thread whose last recording has ended while a fast modem was receiving, with no error correction
-- chosen and its fax_flag reset, handles the next node of the
-- full queue as no fax, whatever V.21 frames the voice of the call has in it, unless a fast modem trains or loses
-- its carrier there or a picture comes of it: the record of the call goes into the CDR ring with callflag 0,
-- `fax_no` counts it, no fax machine is told, the node goes back into the empty queue, and the thread is as
-- deaf as before. The queues share no node, and the thread is calm.
pub decoding_round-Moved :
    (lib : SpanDsp) (m : Modem) (thread : ℕ) (up down : Sound) (tries : List Try) (l : Line)
    (s : FaxState) (p : Ptr) (ps qs : List Ptr)
    → Deaf m l
    → QuietSound up
    → QuietSound down
    → Holds s.heap s.fq (p ∷ ps)
    → Holds s.heap s.eq qs
    → Apart (p ∷ ps) qs
    → Calm (decoded_as false tries) s
    → (t : FaxState) × (l' : Line) × (decoding_round lib thread up down tries l s
        ≡ some (finished t, l'))
      × Moved (decoded_as false tries) s t p ps qs
      × (t.globals ≡ s.globals)
      × Deaf m l'
unfolding decoding_round decoded_round
decoding_round-Moved lib m thread up down tries l s p ps qs deaf quiet_up quiet_down full empty
      apart calm =
    behind (decode_node lib up down l)
      (decode_node-Ignored lib m up down l deaf quiet_up quiet_down)
  where
    behind :
        (o : Option (Bool × Line))
        → Ignored m o
        → (t : FaxState) × (l' : Line) × (decoded_round thread tries s o ≡ some (finished t, l'))
          × Moved (decoded_as false tries) s t p ps qs
          × (t.globals ≡ s.globals)
          × Deaf m l'
    behind none g = absurd g
    behind (some (true, l')) (e, d) = absurd (ground arith)
    behind (some (false, l')) (e, d) =
        let (t, done, moved) =
          fax_round-Moved thread (decoded_as false tries) s p ps qs full empty apart calm in
        (t, l', ap (λ r. some (r, l')) done, moved, no_fax-globals thread tries s t done, d)
