-- ===== src/Sockets/Examples.antt =====
-- Tests for the connections.
use vpu.Common.{◌≡◌, refl, true, false, some, [], ◌∷◌}
use vpu.Sockets.{Network, dial}

-- a network that refuses every connection
abbrev refusing : Network
refusing = record { socket = some 7; parses = λ ip. true; connects = λ ip port. false }

refused_is_closed : (dial refusing (49 ∷ []) 80).closed ≡ 7 ∷ []
unfolding dial
refused_is_closed = refl
