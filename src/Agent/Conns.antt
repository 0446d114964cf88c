-- ===== src/Agent/Conns.antt =====
-- The connections of src/conn_serv.c: a round of `conn_sguard` and a round of `conn_ma`. What connect, write,
-- select and read answer is an input; a packet that is written goes with its socket into a list.
use mathlib.Core.Path.{subst}
use vpu.Common.{
  ◌≢◌, ◌∙◌, Option-cases, not_==→ne, ℕ, ◌+◌, ◌%◌, ◌^◌, ◌<◌, ◌≡◌, refl, inl, inr, Bool, Option, none,
  some, List, [], ◌∷◌, arith, leb, ◌==◌, if◌then◌else◌, length, Bool-cases, not_leb→lt,
}
use vpu.Agent.{
  PktHeader, Packet, Ending, vpu_fill_regsguard_packet, vpu_fill_alive_packet,
  vpu_fill_regma_packet,
}
use vpu.Agent.Dispatch.{Command, cmd_loop}

-- the values that go into the packets
pub record Self : Type 0 where
  pub size : ℕ
  pub pid : ℕ
  pub sn : ℕ
  pub vpu_id : ℕ
  pub server_ip : List ℕ

-- `sockfd` (`none` for -1), `conn_times`, the number of the next packet, and the flag of a reload
pub record Conn : Type 0 where
  pub sockfd : Option ℕ
  pub conn_times : ℕ
  pub num : ℕ
  pub reload : ℕ

abbrev pub Written : Type 0
Written = List (ℕ × Packet)

-- a reload closes the connection
unfoldable pub drop_old : Conn → Conn
drop_old c = if c.reload == 1 then record c { sockfd = none; reload = 0 } else c

-- a connection that could not be made
unfoldable pub missed : Conn → Conn
missed c = record c { conn_times = if leb 60 (c.conn_times + 1) then 0 else c.conn_times + 1 }

-- the packet that says that the VPU is alive, and the end of the round of `conn_sguard`
unfoldable pub say_alive : Self → Bool → ℕ → Conn → Conn × Written
say_alive self ok fd c =
    let c' = record c { sockfd = some fd; num = (c.num + 1) % 2 ^ 16 } in
    (
      if ok then c' else record c' { sockfd = none },
      (fd, vpu_fill_alive_packet self.size c.num) ∷ [],
    )

-- A round of `conn_sguard`: `connect` is what `connect2sguard` returns, `ok` whether the last write returns more
-- than 0. A new connection starts with the registration.
unfoldable pub sguard_round : Self → Option ℕ → Bool → Conn → Conn × Written
sguard_round self connect ok c =
    let c1 = drop_old c in
    elim (c1.sockfd) [
      | some fd ↦ say_alive self ok fd c1
      | none ↦ elim connect [
        | none ↦ (missed c1, [])
        | some fd ↦
            let packet =
              vpu_fill_regsguard_packet self.size c1.num self.pid self.sn self.vpu_id
                self.server_ip in
            let (c2, out) = say_alive self ok fd (record c1 { num = (c1.num + 1) % 2 ^ 16 }) in
            (c2, (fd, packet) ∷ out)
      ]
    ]

-- What select and read give to a round of `conn_ma`: nothing, an end of the connection, or so many bytes with the
-- memory from the buffer on.
pub data Input : Type 0 where
  quiet closed : Input
  bytes : ℕ → List ℕ → Input

-- how a round of `conn_ma` ends: the connection, what was written, and what the parser has found
pub record MaRound : Type 0 where
  pub conn : Conn
  pub written : Written
  pub parsed : Option (Option (Ending × List Command))

-- the part behind the connect
unfoldable pub ma_input : ℕ → (List ℕ → PktHeader) → Self → Input → Written → Conn → MaRound
ma_input fuel header self quiet out c = record { conn = c; written = out; parsed = none }
ma_input fuel header self closed out c = record {
  conn = record c { sockfd = none };
  written = out;
  parsed = none;
}
ma_input fuel header self (bytes n mem) out c = record {
  conn = c;
  written = out;
  parsed = some (cmd_loop fuel header self.size mem n []);
}

unfoldable pub ma_round : ℕ → (List ℕ → PktHeader) → Self → Option ℕ → Input → Conn → MaRound
ma_round fuel header self connect input c =
    let c1 = drop_old c in
    elim (c1.sockfd) [
      | some fd ↦ ma_input fuel header self input [] c1
      | none ↦ elim connect [
        | none ↦ record { conn = missed c1; written = []; parsed = none }
        | some fd ↦
            ma_input fuel header self input
              ((fd, vpu_fill_regma_packet self.size c1.num self.pid self.sn) ∷ [])
              (record c1 { sockfd = some fd; num = (c1.num + 1) % 2 ^ 16 })
      ]
    ]

drop_old-cases :
    (c : Conn)
    → ((drop_old c).conn_times ≡ c.conn_times)
      × ((drop_old c).num ≡ c.num)
      × ((drop_old c).reload ≢ 1)
unfolding drop_old
drop_old-cases c = elim (Bool-cases (c.reload == 1)) [
  | inl asked ↦ rw asked (refl, refl, λ e. absurd (omega arith))
  | inr calm ↦ rw calm (refl, refl, not_==→ne _ _ calm)
]

plus_none : (n : ℕ) → n < 65536 → n ≡ (n + 0) % 65536
plus_none n h = omega arith

missed_few : (c : Conn) → (missed c).conn_times < 60
unfolding missed
missed_few c = elim (Bool-cases (leb 60 (c.conn_times + 1))) [
  | inl e ↦ rw e (omega arith)
  | inr e ↦ rw e (not_leb→lt _ _ e)
]

-- what a round keeps, where `num` is the number of the next packet before it
pub record Kept (num : ℕ) (r : Conn × Written) : Type 0 where
  pub times : r.0.conn_times < 60
  pub numbers : r.0.num ≡ (num + length r.1) % 2 ^ 16
  pub served : r.0.reload ≢ 1

say_alive-Kept :
    (self : Self) (ok : Bool) (fd : ℕ) (c : Conn)
    → c.conn_times < 60
    → c.reload ≢ 1
    → Kept c.num (say_alive self ok fd c)
unfolding say_alive
say_alive-Kept self ok fd c few calm = elim (Bool-cases ok) [
  | inl e ↦ rw e (record { times = few; numbers = refl; served = calm })
  | inr e ↦ rw e (record { times = few; numbers = refl; served = calm })
]

-- A round of `conn_sguard` leaves fewer than 60 failed attempts, has numbered its packets one after the other, and
-- has served a reload.
pub sguard_round-Kept :
    (self : Self) (connect : Option ℕ) (ok : Bool) (c : Conn)
    → c.conn_times < 60
    → c.num < 2 ^ 16
    → Kept c.num (sguard_round self connect ok c)
unfolding sguard_round missed
sguard_round-Kept self connect ok c few small =
    let (times, num, calm) = drop_old-cases c in
    let c1 = drop_old c in
    elim (Option-cases c1.sockfd) [
      | inr (fd, e) ↦
          rw (e, sguard_round)
            (subst (λ n. Kept n (say_alive self ok fd c1)) num
              (say_alive-Kept self ok fd c1 (omega arith) calm))
      | inl e ↦ elim (Option-cases connect) [
        | inl none_made ↦
            rw (e, none_made, sguard_round)
              (record {
                times = missed_few c1;
                numbers = num ∙ plus_none c.num small;
                served = calm;
              })
        | inr (fd, made) ↦
            let k =
              say_alive-Kept self ok fd (record c1 { num = (c1.num + 1) % 2 ^ 16 }) (omega arith)
                calm in
            rw (e, made, sguard_round)
              (record {
                times = k.times;
                numbers = omega (arith, k.numbers, num);
                served = k.served;
              })
      ]
    ]
