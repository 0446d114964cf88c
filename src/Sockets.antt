-- ===== src/Sockets.antt =====
-- The four functions that open a connection: `connect2cdr` of src/send_cdr.c, `connect2sguard` and `connect2ma` of
-- src/conn_serv.c, and `cconnect` of src/fax_decode.c. Other parts take their results as inputs.
pub mod Leaks
mod Examples
use vpu.Common.{
  ℕ, ◌%◌, ◌^◌, ◌≡◌, ◌≢◌, ◌⊎◌, inl, inr, refl, Bool, true, false, Option, none, some, List, [], ◌∷◌,
  if◌then◌else◌, if_keeps, arith,
}
use vpu.Conf.{Str, Globals, FaxInfo}

-- What `socket` returns, and whether `inet_pton` and `connect` succeed, for any address.
pub record Network : Type 0 where
  pub socket : Option ℕ
  pub parses : Str → Bool
  pub connects : Str → ℕ → Bool

-- The result, the calls of `close`, and the address that the connection has been made to.
pub record Dialled : Type 0 where
  pub sockfd : Option ℕ
  pub closed : List ℕ
  pub peer : Option (Str × ℕ)

abbrev hung_up : List ℕ → Dialled
hung_up fds = record { sockfd = none; closed = fds; peer = none }

-- The steps that the four have in common, with the port as htons takes it.
unfoldable pub dial : Network → Str → ℕ → Dialled
dial net ip port = elim (net.socket) [
  | none ↦ hung_up []
  | some fd ↦
      if net.parses ip
      then (if net.connects ip (port % 2 ^ 16)
          then record { sockfd = some fd; closed = []; peer = some (ip, port % 2 ^ 16) }
          else hung_up (fd ∷ []))
      else hung_up (fd ∷ [])
]

unfoldable pub connect2cdr : Network → Globals → Dialled
connect2cdr net g = dial net g.cdr_ip g.cdr_port

unfoldable pub connect2sguard : Network → Str → Globals → Dialled
connect2sguard net ip_sguard g = dial net ip_sguard g.port_sguard

unfoldable pub connect2ma : Network → Str → Globals → Dialled
connect2ma net ip_ma g = dial net ip_ma g.port_ma

unfoldable pub cconnect : Network → FaxInfo → Dialled
cconnect net f = dial net f.ip f.port

-- What a connection to an address leaves: one that is made is open and leads there; else nothing stays open.
pub record Settled (net : Network) (ip : Str) (port : ℕ) (d : Dialled) : Type 0 where
  pub made :
      d.sockfd ≢ none
      → (d.sockfd ≡ net.socket) × (d.closed ≡ []) × (d.peer ≡ some (ip, port % 2 ^ 16))
  pub failed : d.sockfd ≡ none → d.closed ≡ elim (net.socket) [ none ↦ [] | some fd ↦ fd ∷ [] ]
