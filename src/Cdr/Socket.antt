-- ===== src/Cdr/Socket.antt =====
-- The loops of src/send_cdr.c that write or read a whole buffer over a socket: `sock_send_buf` and
-- `sock_recv_buf`. The socket is the list of what its calls return, in order. A list that ends
-- while the loop still calls stands for a call that has not returned yet.
use mathlib.Core.Path.{subst}
use vpu.Common.{
  ℕ, ◌+◌, ◌-◌, ◌≤◌, ◌<◌, ◌≡◌, ap, ◌∙◌, ◌↔◌, Bool, true, false, Bool-cases, inl, inr, Option, none,
  some, List, [], ◌∷◌, ◌++◌, ltb, leb, if◌then◌else◌, length, take, drop, length-append,
  length-take, length-drop, arith, drop-add, take-append-take-drop, ltb→lt,
}

pub data Transfer : Type 0 where
  done failed blocked : Transfer

-- `sock_send_buf` from offset `len` on: its result, and the bytes that `send` has accepted. A return
-- value below 0 is `none`.
unfoldable pub sock_send_buf : List (Option ℕ) → List ℕ → ℕ → ℕ → Transfer × List ℕ
sock_send_buf [] buf len size = (if ltb len size then blocked else done, [])
sock_send_buf (none ∷ rets) buf len size = (if ltb len size then failed else done, [])
sock_send_buf (some ret ∷ rets) buf len size =
    let (r, wire) = sock_send_buf rets buf (len + ret) size in
    if ltb len size then (r, take ret (drop len buf) ++ wire) else (done, [])

-- `sock_recv_buf` with `left` bytes still to come: its result and the bytes stored. Each entry is what
-- one `recv` delivers; an empty one is a return value of 0 or less.
unfoldable pub sock_recv_buf : List (List ℕ) → ℕ → Transfer × List ℕ
sock_recv_buf [] left = (if ltb 0 left then blocked else done, [])
sock_recv_buf (chunk ∷ chunks) left =
    let (r, stored) = sock_recv_buf chunks (left - length chunk) in
    if ltb 0 left
    then (if leb (length chunk) 0 then (failed, []) else (r, chunk ++ stored))
    else (done, [])

-- send(2) and recv(2) return at most the size that they were asked for.
abbrev pub AtMost : ℕ → List (Option ℕ) → Type 0
AtMost left [] = Unit {0}
AtMost left (none ∷ rets) = Unit {0}
AtMost left (some ret ∷ rets) = (ret ≤ left) × AtMost (left - ret) rets

abbrev pub is_done : Transfer → Bool
is_done done = true
is_done failed = false
is_done blocked = false

-- What a transfer from `len` on has put on the wire, and what its result says of it.
record Wrote (buf : List ℕ) (len size : ℕ) (out : Transfer × List ℕ) : Type 0 where
  prefix : out.1 ≡ take (length out.1) (drop len buf)
  within : len + length out.1 ≤ size
  all : (is_done out.0 ≡ true) ↔ (len + length out.1 ≡ size)

sock_send_buf-Wrote :
    (rets : List (Option ℕ)) (buf : List ℕ) (len size : ℕ)
    → len ≤ size
    → size ≤ length buf
    → AtMost (size - len) rets
    → Wrote buf len size (sock_send_buf rets buf len size)
unfolding sock_send_buf
sock_send_buf-Wrote [] buf len size h src ok = ground arith
sock_send_buf-Wrote (none ∷ rets) buf len size h src ok = ground arith
sock_send_buf-Wrote (some ret ∷ rets) buf len size h src ok = elim (Bool-cases (ltb len size)) [
  | inl more ↦
      let rest = sock_send_buf rets buf (len + ret) size in
      let w = sock_send_buf-Wrote rets buf (len + ret) size (omega (arith, ok.0)) src (
        let e : size - len - ret ≡ size - (len + ret) = omega arith in
        subst (λ n. AtMost n rets) e ok.1) in
      let front = take ret (drop len buf) in
      let n : length front ≡ ret =
        omega (arith, ltb→lt _ _ more, ok.0, length-take ret (drop len buf), length-drop len buf) in
      rw more (record {
        prefix =
            ap (λ l. front ++ l) (w.prefix ∙ ap (take (length rest.1)) (drop-add len ret buf))
            ∙ take-append-take-drop ret (length rest.1) (drop len buf)
            ∙ ap (λ k. take k (drop len buf)) (omega (arith, n, length-append front rest.1));
        within = omega (arith, n, length-append front rest.1, w.within);
        all = (
          λ d. omega (arith, n, length-append front rest.1, w.all.0 d),
          λ e. w.all.1 (omega (arith, n, length-append front rest.1)),
        );
      })
  | inr over ↦ rw over (ground arith)
]

-- However `send` cuts the transfer, what goes on the wire is a prefix of the buffer and never more than
-- `size` bytes, and the loop reports success exactly when all `size` bytes have gone.
pub sock_send_buf_prefix :
    (rets : List (Option ℕ)) (buf : List ℕ) (size : ℕ)
    → size ≤ length buf
    → AtMost size rets
    → ((sock_send_buf rets buf 0 size).1 ≡ take (length (sock_send_buf rets buf 0 size).1) buf)
      × (length (sock_send_buf rets buf 0 size).1 ≤ size)
      × ((is_done (sock_send_buf rets buf 0 size).0 ≡ true)
          ↔ (length (sock_send_buf rets buf 0 size).1 ≡ size))
sock_send_buf_prefix rets buf size src ok =
    let e : size ≡ size - 0 = omega arith in
    let w =
      sock_send_buf-Wrote rets buf 0 size (omega arith) src (subst (λ n. AtMost n rets) e ok) in
    (
      w.prefix,
      omega (arith, w.within),
      (λ d. omega (arith, w.all.0 d), λ f. w.all.1 (omega (arith, f))),
    )

-- no `send` fails, and each takes at least one byte
abbrev pub Progress : List (Option ℕ) → Type 0
Progress [] = Unit {0}
Progress (none ∷ rets) = ⊥
Progress (some ret ∷ rets) = (0 < ret) × Progress rets

sock_send_buf-total :
    (rets : List (Option ℕ)) (buf : List ℕ) (len size : ℕ)
    → size - len ≤ length rets
    → Progress rets
    → is_done (sock_send_buf rets buf len size).0 ≡ true
unfolding sock_send_buf
sock_send_buf-total [] buf len size n p = ground arith
sock_send_buf-total (none ∷ rets) buf len size n p = absurd p
sock_send_buf-total (some ret ∷ rets) buf len size n p = elim (Bool-cases (ltb len size)) [
  | inl more ↦ rw more (sock_send_buf-total rets buf (len + ret) size (omega (arith, p.0)) p.1)
  | inr over ↦ rw over
]

-- While no `send` fails and each makes progress, the loop ends with success after at most `size` calls.
pub sock_send_buf_ends :
    (rets : List (Option ℕ)) (buf : List ℕ) (size : ℕ)
    → size ≤ length rets
    → Progress rets
    → is_done (sock_send_buf rets buf 0 size).0 ≡ true
sock_send_buf_ends rets buf size n p = sock_send_buf-total rets buf 0 size (omega arith) p
