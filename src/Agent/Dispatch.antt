-- ===== src/Agent/Dispatch.antt =====
-- `ma_cmd_parser` of src/conn_serv.c: the loop over the packets that the management agent has sent, and its
-- switch. The layout of `struct pkt_header` and the numbers of the commands are defined outside the
-- repository: reading a header and naming a command are arguments.
use vpu.Common.{
  lt→ltb, append-nil, ℕ, zero, suc, ◌+◌, ◌-◌, ◌%◌, ◌^◌, ◌≤◌, ◌<◌, ◌≡◌, refl, sym, ◌∙◌, ap, false,
  Option, none, some, List, [], ◌∷◌, ◌++◌, arith, ltb, if◌then◌else◌, length, take, drop, map,
  le→not_ltb, length-append, take-append_self, drop-append_self, append_assoc, drop-add,
}
use vpu.Agent.{PktHeader, Ending, returned0, returned_1, overread}

-- a packet as the switch sees it: the fields `cmd` and `num`, and what lies at `data`
pub record Command : Type 0 where
  pub cmd : ℕ
  pub num : ℕ
  pub data_len : ℕ
  pub body : List ℕ

-- The `while` of `ma_cmd_parser` with fuel: `mem` is the memory from `left` on, `size` is
-- sizeof(struct pkt_header). The difference of `len` and `size` is taken modulo 2 ^ 32.
unfoldable pub cmd_loop :
    ℕ → (List ℕ → PktHeader) → ℕ → List ℕ → ℕ → List Command → Option (Ending × List Command)
cmd_loop zero header size mem left_len done = none
cmd_loop (suc fuel) header size mem left_len done =
    let h = header mem in
    let data_len = (h.len + 2 ^ 32 - size) % 2 ^ 32 in
    let c : Command = record {
      cmd = h.cmd;
      num = h.num;
      data_len = data_len;
      body = take data_len (drop size mem);
    } in
    let rest =
      cmd_loop fuel header size (drop (size + data_len) mem)
        ((left_len + 2 ^ 33 - size - data_len) % 2 ^ 32) (done ++ (c ∷ [])) in
    if ltb left_len size
    then some (returned0, done)
    else if ltb (length mem) size
    then some (overread, done)
    else rest

-- The commands by name: RELOAD, GET_COUNTER, COUNTER_STRUCT, SOFTWARE_STATUS, DEBUG_ON, DEBUG_OFF, SYSLOG_LEVEL,
-- DEBUG_MASK, SHOW_SYS_LEV, SHOW_DEBUG_MASK, and any other number.
pub data Cmd : Type 0 where
  reload get_counter counter_struct software_status debug_on debug_off : Cmd
  syslog_level debug_mask show_sys_lev show_debug_mask other_cmd : Cmd

-- what a case of the switch does
pub data Action : Type 0 where
  run_reload run_software_status set_log_level set_debug_mask : List ℕ → Action
  send_counter send_struct send_loglevel send_logmask : ℕ → Action
  turn_debug_on turn_debug_off : Action
  log_unknown : ℕ → Action

-- The switch: the case for SHOW_DEBUG_MASK runs on into the default.
unfoldable pub dispatch : Cmd → Command → List Action
dispatch reload c = run_reload c.body ∷ []
dispatch get_counter c = send_counter c.num ∷ []
dispatch counter_struct c = send_struct c.num ∷ []
dispatch software_status c = run_software_status c.body ∷ []
dispatch debug_on c = turn_debug_on ∷ []
dispatch debug_off c = turn_debug_off ∷ []
dispatch syslog_level c = set_log_level c.body ∷ []
dispatch debug_mask c = set_debug_mask c.body ∷ []
dispatch show_sys_lev c = send_loglevel c.num ∷ []
dispatch show_debug_mask c = send_logmask c.num ∷ log_unknown c.cmd ∷ []
dispatch other_cmd c = log_unknown c.cmd ∷ []

-- A packet as its sender makes it.
pub record Sent : Type 0 where
  pub head : List ℕ
  pub body : List ℕ
  pub cmd : ℕ
  pub num : ℕ

abbrev pub bytes_of : List Sent → List ℕ
bytes_of [] = []
bytes_of (p ∷ ps) = p.head ++ (p.body ++ bytes_of ps)

abbrev pub received : Sent → Command
received p = record { cmd = p.cmd; num = p.num; data_len = length p.body; body = p.body }

-- The header of the packet reads as it was written, whatever follows it, and holds the length of the packet.
pub record Formed (header : List ℕ → PktHeader) (size : ℕ) (p : Sent) : Type 0 where
  pub head_size : length p.head ≡ size
  pub len : (rest : List ℕ) → (header (p.head ++ rest)).len ≡ size + length p.body
  pub cmd : (rest : List ℕ) → (header (p.head ++ rest)).cmd ≡ p.cmd
  pub num : (rest : List ℕ) → (header (p.head ++ rest)).num ≡ p.num

abbrev pub AllFormed : (List ℕ → PktHeader) → ℕ → List Sent → Type 0
AllFormed header size [] = Unit {0}
AllFormed header size (p ∷ ps) = Formed header size p × AllFormed header size ps

step_len : (len size n : ℕ) → len ≡ size + n → size + n < 65536 → (len + 2 ^ 32 - size) % 2 ^ 32 ≡ n
step_len len size n e h = omega arith

left_len-step :
    (size n rest : ℕ)
    → size + n + rest < 65536
    → (size + n + rest + 2 ^ 33 - size - n) % 2 ^ 32 ≡ rest
left_len-step size n rest h = omega arith

-- the memory behind a packet, and what lies in it
after_head : (head xs : List ℕ) (size : ℕ) → length head ≡ size → drop size (head ++ xs) ≡ xs
after_head head xs size e = ap (λ n. drop n (head ++ xs)) (sym e) ∙ drop-append_self head xs

after_packet :
    (head xs ys : List ℕ) (size : ℕ)
    → length head ≡ size
    → drop (size + length xs) (head ++ (xs ++ ys)) ≡ ys
after_packet head xs ys size e =
    drop-add size (length xs) (head ++ (xs ++ ys))
    ∙ ap (λ l. drop (length xs) l) (after_head head (xs ++ ys) size e)
    ∙ drop-append_self xs ys

body_of :
    (head xs ys : List ℕ) (size : ℕ)
    → length head ≡ size
    → take (length xs) (drop size (head ++ (xs ++ ys))) ≡ xs
body_of head xs ys size e =
    ap (λ l. take (length xs) l) (after_head head (xs ++ ys) size e) ∙ take-append_self xs ys

size_of :
    (p : Sent) (ps : List Sent) (size : ℕ)
    → length p.head ≡ size
    → length (bytes_of (p ∷ ps)) ≡ size + length p.body + length (bytes_of ps)
size_of p ps size e =
    omega (arith, length-append p.head (p.body ++ bytes_of ps), length-append p.body (bytes_of ps))

-- Packets that lie one behind the other in the buffer, and fill it, are all found, in their order and each with its
-- own data; the loop ends. A header takes a byte at least, and the buffer is smaller than 65536 bytes.
pub cmd_loop-received :
    (header : List ℕ → PktHeader) (size : ℕ) (ps : List Sent) (done : List Command)
    → 0 < size
    → length (bytes_of ps) < 65536
    → AllFormed header size ps
    → cmd_loop (suc (length ps)) header size (bytes_of ps) (length (bytes_of ps)) done
      ≡ some (returned0, done ++ map received ps)
unfolding cmd_loop
cmd_loop-received header size [] done pos small formed =
    rw (lt→ltb 0 size pos) (ap (λ l. some (returned0, l)) (sym (append-nil done)))
cmd_loop-received header size (p ∷ ps) done pos small formed =
    let f = formed.0 in
    let n = length p.body in
    let rest = length (bytes_of ps) in
    let behind = p.body ++ bytes_of ps in
    let total = size_of p ps size f.head_size in
    let len = step_len _ size n (f.len behind) (omega arith) in
    let left = left_len-step size n rest (omega arith) in
    let enough : ltb (size + n + rest) size ≡ false = le→not_ltb _ _ (omega arith) in
    rw (total, len, enough)
      (rw
        (
          left,
          f.cmd behind,
          f.num behind,
          after_packet p.head p.body (bytes_of ps) size f.head_size,
          body_of p.head p.body (bytes_of ps) size f.head_size,
        )
        (cmd_loop-received header size ps _ pos (omega arith) formed.1
          ∙ ap (λ l. some (returned0, l)) (append_assoc done (received p ∷ []) (map received ps))))

drop_past : (n : ℕ) (xs : List ℕ) → length xs ≤ n → drop n xs ≡ []
drop_past zero [] h = refl
drop_past zero (x ∷ xs) h = absurd (omega arith)
drop_past (suc n) [] h = refl
drop_past (suc n) (x ∷ xs) h = drop_past n xs (omega arith)

-- The run is over, by a read behind the memory.
abbrev pub Overreads : Option (Ending × List Command) → Type 0
Overreads none = ⊥
Overreads (some (overread, cs)) = Unit {0}
Overreads (some (returned0, cs)) = ⊥
Overreads (some (returned_1, cs)) = ⊥

-- A header whose `len` is smaller than the header itself, in a buffer that is long enough for two, sends the next
-- round 4 GB ahead: the parser reads behind the memory that holds the buffer.
pub cmd_loop-overread :
    (header : List ℕ → PktHeader) (fuel size : ℕ) (mem : List ℕ) (left_len : ℕ)
    (done : List Command)
    → 0 < size
    → (header mem).len < size
    → size + size ≤ left_len
    → left_len ≤ length mem
    → length mem < 2 ^ 31
    → Overreads (cmd_loop (suc (suc fuel)) header size mem left_len done)
unfolding cmd_loop
cmd_loop-overread header fuel size mem left_len done pos short two inside small =
    let len = (header mem).len in
    let wraps : (len + 2 ^ 32 - size) % 2 ^ 32 ≡ len + 2 ^ 32 - size = omega arith in
    let left : (left_len + 2 ^ 33 - size - (len + 2 ^ 32 - size)) % 2 ^ 32 ≡ left_len - len =
      omega arith in
    let gone = drop_past (size + (len + 2 ^ 32 - size)) mem (omega arith) in
    rw
      (
        wraps,
        left,
        gone,
        le→not_ltb left_len size (omega arith),
        le→not_ltb (length mem) size (omega arith),
      )
      (rw (le→not_ltb (left_len - len) size (omega arith), lt→ltb 0 size pos) tt)
