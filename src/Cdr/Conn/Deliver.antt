-- ===== src/Cdr/Conn/Deliver.antt =====
-- The rounds of `conn_cdr_thread` in src/send_cdr.c, and the records that are not acknowledged yet.
use vpu.Common.{◌≡◌, none, List, [], ◌∷◌, ◌++◌, if◌then◌else◌}
use vpu.Cdr.{Cdr}
use vpu.Cdr.Refine.{log}
use vpu.Cdr.Conn.{CdrConn, Round, conn_round}
use vpu.Cdr.Conn.Inv.{Fits}
use vpu.Cdr.Conn.Steps.{opens, Step}

-- The rounds of the thread, one after the other.
pub run_rounds : List Round → CdrConn → CdrConn
run_rounds [] c = c
run_rounds (io ∷ ios) c = run_rounds ios (conn_round io c)

abbrev pub FitsAll : List Round → CdrConn → Type 0
FitsAll [] c = Unit {0}
FitsAll (io ∷ ios) c = Fits io.selected c × FitsAll ios (conn_round io c)

-- Every round is a step of the sender.
abbrev pub Steps : List Round → CdrConn → Type 0
Steps [] c = Unit {0}
Steps (io ∷ ios) c =
    Step (opens (if io.reload then none else c.sockfd) io.connect) c (conn_round io c)
    × Steps ios (conn_round io c)

-- What is in flight is the end of what the connection has been given.
abbrev pub OnWire : CdrConn → Type 0
OnWire c = (acked : List Cdr) × (c.given ≡ acked ++ (log c.buff).in_flight)
