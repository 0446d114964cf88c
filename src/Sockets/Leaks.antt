-- ===== src/Sockets/Leaks.antt =====
-- No attempt at a connection loses a socket.
use vpu.Common.{ℕ, arith}
use vpu.Conf.{Str, Globals, FaxInfo}
use vpu.Sockets.{Network, dial, Settled, connect2cdr, connect2sguard, connect2ma, cconnect}

dial-Settled : (net : Network) (ip : Str) (port : ℕ) → Settled net ip port (dial net ip port)
unfolding dial
dial-Settled net ip port = record { made = λ h. ground arith; failed = λ h. ground arith }

-- Whatever the network does, each of the four connections either fails and has closed its socket again, or is the
-- open socket to the address that is configured for the CDR receiver, the guard, the agent and the fax
-- machine.
pub connections-Settled :
    (net : Network) (g : Globals) (ip_sguard ip_ma : Str) (f : FaxInfo)
    → Settled net g.cdr_ip g.cdr_port (connect2cdr net g)
      × Settled net ip_sguard g.port_sguard (connect2sguard net ip_sguard g)
      × Settled net ip_ma g.port_ma (connect2ma net ip_ma g)
      × Settled net f.ip f.port (cconnect net f)
unfolding connect2cdr connect2sguard connect2ma cconnect
connections-Settled net g ip_sguard ip_ma f = (
  dial-Settled net g.cdr_ip g.cdr_port,
  dial-Settled net ip_sguard g.port_sguard,
  dial-Settled net ip_ma g.port_ma,
  dial-Settled net f.ip f.port,
)
