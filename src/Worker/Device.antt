-- ===== src/Worker/Device.antt =====
-- The loop of `vpu_io_thread` in src/vpu_worker.c round the capture of a packet: the device, its reload and the
-- end. What `pcap_open_live` and `pcap_next` return is an input.
use vpu.Common.{ℕ, ◌≡◌, Bool, true, false, Option, none, some, ◌==◌, if◌then◌else◌}
use vpu.Conf.{Str}
use vpu.Fifo.{PktNode}
use vpu.Worker.{System, io_step, Captured, Reach}

-- the device that is open, with the name that it was opened by, and `vpu_dev_reload`
pub record Device : Type 0 where
  pub dev : Option Str
  pub vpu_dev_reload : ℕ

-- How a round ends: the process has exited, a copy has left a ring, the thread has left its loop, or it goes on.
pub data IoRound : Type 0 where
  exited fault : IoRound
  left on : Device → System → IoRound

-- `pcap_open_live(get_dev(), ...)`, or exit
unfoldable pub open_device : Bool → Str → ℕ → Option Device
open_device opened dev reload =
    if opened then some (record { dev = some dev; vpu_dev_reload = reload }) else none

-- `pcap_next`, and what follows for a packet
unfoldable pub next_packet : Option PktNode → Device → System → IoRound
next_packet none d s = on d s
next_packet (some node) d s = elim (io_step node s) [ none ↦ fault | some s' ↦ on d s' ]

-- A round; `dev` is what `get_dev` returns, and `opened` whether the device can be opened.
unfoldable pub io_round : Bool → Str → Bool → Option PktNode → Device → System → IoRound
io_round finished dev opened pkt d s =
    if finished
    then left (record d { dev = none }) s
    else if d.vpu_dev_reload == 1
    then elim (open_device opened dev 0) [ none ↦ exited | some d' ↦ next_packet pkt d' s ]
    else next_packet pkt d s

-- What a captured packet is relied on to be, if there is one.
abbrev pub Caught : Option PktNode → Type 0
Caught none = Unit
Caught (some node) = Captured node

-- How a round may end that begins with the device `d`: `finished` is whether the process ends, `dev` what `get_dev`
-- returns, and `opened` whether that device can be opened.
abbrev pub Ends : System → Bool → Str → Bool → Device → IoRound → Type 0
Ends s0 finished dev opened d exited =
    (finished ≡ false) × (d.vpu_dev_reload ≡ 1) × (opened ≡ false)
Ends s0 finished dev opened d fault = ⊥
Ends s0 finished dev opened d (left d' s) = (finished ≡ true) × (d'.dev ≡ none) × Reach s0 s
Ends s0 finished dev opened d (on d' s) =
    (finished ≡ false)
    × (d.vpu_dev_reload ≡ 1 → opened ≡ true)
    × Reach s0 s
    × (d'.dev ≡ (if d.vpu_dev_reload == 1 then some dev else d.dev))
    × (d'.vpu_dev_reload ≡ (if d.vpu_dev_reload == 1 then 0 else d.vpu_dev_reload))
