-- ===== src/Fifo/Threads/Queue.antt =====
-- The bounded queue that the threads of a ring share, seen by its events.
use vpu.Common.{ℕ, ◌<◌, ◌≡◌, ap, ◌∙◌, sym, List, [], ◌∷◌, ◌++◌, length, append_assoc, append-nil}
use vpu.Fifo.Threads.{Event, quiet, full, empty, bad, put, got}

abbrev pub Queue : Type 0
Queue = List (List ℕ)

abbrev pub tail : Queue → Queue
tail [] = []
tail (x ∷ q) = q

-- the queue behind an event
abbrev pub after : Event → Queue → Queue
after (put x) q = q ++ (x ∷ [])
after (got x) q = tail q
after _ q = q

-- Which events a queue of `size` places allows: a put needs a place and "no space" a full queue, a get
-- hands out the head and "no data" needs an empty one.
abbrev pub Allowed : ℕ → Event → Queue → Type 0
Allowed size quiet q = Unit
Allowed size full q = length q ≡ size
Allowed size empty q = q ≡ []
Allowed size bad q = ⊥
Allowed size (put x) q = length q < size
Allowed size (got x) q = q ≡ x ∷ tail q

abbrev pub Trace : ℕ → Queue → List Event → Type 0
Trace size q [] = Unit
Trace size q (e ∷ es) = Allowed size e q × Trace size (after e q) es

abbrev pub end_of : Queue → List Event → Queue
end_of q [] = q
end_of q (e ∷ es) = end_of (after e q) es

-- the packets that went in, and those that came out
abbrev pub puts : List Event → Queue
puts [] = []
puts (put x ∷ es) = x ∷ puts es
puts (_ ∷ es) = puts es

abbrev pub gots : List Event → Queue
gots [] = []
gots (got x ∷ es) = x ∷ gots es
gots (_ ∷ es) = gots es

-- In a trace nothing is lost, made up or overtaken.
pub Trace-order :
    (size : ℕ) (q : Queue) (es : List Event)
    → Trace size q es
    → q ++ puts es ≡ gots es ++ end_of q es
Trace-order size q [] h = append-nil q
Trace-order size q (quiet ∷ es) h = Trace-order size q es h.1
Trace-order size q (full ∷ es) h = Trace-order size q es h.1
Trace-order size q (empty ∷ es) h = Trace-order size q es h.1
Trace-order size q (bad ∷ es) h = absurd h.0
Trace-order size q (put x ∷ es) h =
    sym (append_assoc q (x ∷ []) (puts es)) ∙ Trace-order size (q ++ (x ∷ [])) es h.1
Trace-order size q (got x ∷ es) h =
    ap (λ l. l ++ puts es) h.0 ∙ ap (λ l. x ∷ l) (Trace-order size (tail q) es h.1)
