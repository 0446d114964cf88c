-- ===== src/Fax/Rounds.antt =====
-- A round of `fax_pre` in src/fax_decode.c, from `FETCH_PHEAD` to `EN_QUEUE`.
use vpu.Common.{ℕ, ◌+◌, ◌%◌, ◌^◌, Bool, Option, none, some, List, ◌==◌, if◌then◌else◌}
use vpu.Cdr.{Cdr, CdrList, cdr_insert}
use vpu.Queue.{Ptr, null, Heap, Queue, write, en_queue, fetch_phead}
use vpu.Conf.{Globals}
use vpu.Fax.{Try, Sending, going_on, overread, ended, next_fax, send_loop}

-- What a fax thread works on: the two queues in one heap, the records of the nodes, the CDR ring, the variables
-- of src/conf.c, three counters, and its own `m`.
pub record FaxState : Type 0 where
  pub fq : Queue
  pub eq : Queue
  pub heap : Heap
  pub cdr : Ptr → Cdr
  pub ring : CdrList
  pub globals : Globals
  pub m : ℕ
  pub fax_dequeue : ℕ
  pub fax_yes : ℕ
  pub fax_no : ℕ

-- What the system answers in a round: whether `decode_mem` returns 1 for the buffer of the one way and for
-- that of the other, and how the sending loop is let go.
pub record Decoded : Type 0 where
  pub up : Bool
  pub down : Bool
  pub tries : List Try

-- How a round ends: nothing to do, a fault in a queue or behind the table, the sending loop still going on, or done.
pub data Round : Type 0 where
  fault still_sending : Round
  idle finished : FaxState → Round

-- `callflag` after the two calls of `decode_mem`
abbrev pub callflag_of : Decoded → ℕ
callflag_of d = if d.up then 1 else if d.down then 1 else 0

-- the end of a round: `p->next = NULL; EN_QUEUE(eq, p)`
unfoldable pub give_back : Ptr → FaxState → Round
give_back p s = elim (en_queue s.eq p (write s.heap p (some null))) [
  | none ↦ fault
  | some (eq, h) ↦ finished (record s { eq = eq; heap = h })
]

-- what follows the sending loop
unfoldable pub after_send : Ptr → FaxState → Sending → Round
after_send p s going_on = still_sending
after_send p s overread = fault
after_send p s (ended sent m g) = give_back p (record s { globals = g; m = next_fax g.fax_num m })

-- the branch for a fax, and the other one
unfoldable pub deliver : ℕ → Decoded → Ptr → FaxState → Round
deliver thread d p s =
    if callflag_of d == 1
    then after_send p (record s { fax_yes = (s.fax_yes + 1) % 2 ^ 64 })
        (send_loop thread d.tries s.m s.m s.globals)
    else give_back p (record s { fax_no = (s.fax_no + 1) % 2 ^ 64 })

-- the node `p` that `FETCH_PHEAD` has taken off, with the queue and the heap that it leaves
unfoldable pub decode : ℕ → Decoded → FaxState → Option (Ptr × Queue × Heap) → Round
decode thread d s none = fault
decode thread d s (some (p, fq, h)) =
    let c = record (s.cdr p) { callflag = callflag_of d } in
    let s' : FaxState = record s {
      fq = fq;
      heap = h;
      cdr = λ a. if a == p then c else s.cdr a;
      ring = cdr_insert c s.ring;
      fax_dequeue = (s.fax_dequeue + 1) % 2 ^ 64;
    } in
    if p == null then idle (record s { fq = fq; heap = h }) else deliver thread d p s'

-- one round of the loop of `fax_pre`, by the thread `thread`
unfoldable pub fax_round : ℕ → Decoded → FaxState → Round
fax_round thread d s = decode thread d s (fetch_phead s.fq s.heap)
