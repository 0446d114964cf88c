-- ===== src/Common/Bytes.antt =====
-- Big-endian fields of a byte list (what htons, htonl and htobe64 put on the wire), and their
-- readers. A byte is a number; encoders take each byte by `% 256`, as a cast to uint8_t does.
use Prim.Native.Nat.{ℕ, ◌+◌, ◌*◌, ◌/◌, ◌%◌, ◌^◌, ◌<◌}
use mathlib.Core.Path.{◌≡◌}
use native.Mathlib.Omega.{arith}
use mathlib.Core.List.{List, [], ◌∷◌}
use vpu.Common.Lists.{get_or}

abbrev pub byte_at : List ℕ → ℕ → ℕ
byte_at xs i = get_or xs i 0

-- ntohs(*(uint16_t *)p)
abbrev pub read_be16 : List ℕ → ℕ → ℕ
read_be16 xs i = byte_at xs i * 256 + byte_at xs (i + 1)

-- ntohl(*(uint32_t *)p)
abbrev pub read_be32 : List ℕ → ℕ → ℕ
read_be32 xs i = read_be16 xs i * 65536 + read_be16 xs (i + 2)

abbrev pub be16 : ℕ → List ℕ
be16 v = v / 256 % 256 ∷ v % 256 ∷ []

abbrev pub be32 : ℕ → List ℕ
be32 v = v / 2 ^ 24 % 256 ∷ v / 65536 % 256 ∷ v / 256 % 256 ∷ v % 256 ∷ []

-- what the two bytes of a uint16_t read as
pub be16-read : (v : ℕ) → v < 65536 → v / 256 % 256 * 256 + v % 256 ≡ v
be16-read v h = omega arith
