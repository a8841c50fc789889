-- ===== src/Protocol/Primitives/Ints.antt =====
-- src/protocol/primitives.rs: BOOLEAN and the big-endian integers INT8 to INT64.
pub mod Laws
use rskafka.Prelude.{
  ℕ, zero, suc, ◌+◌, ◌*◌, ◌/◌, ◌%◌, ◌^◌, Bool, true, false, ◌==◌, if◌then◌else◌, not, List, [], ◌∷◌,
}
use mathlib.Core.List.{reverse}
use rskafka.Prelude.Int.{ℤ, to_word, from_word}
use rskafka.Protocol.Traits.{Reader, Writer, ◌>>=◌, pure, read_exact, write_all}

-- The bytes of a word, the least significant first.
pub le_bytes : ℕ → ℕ → List ℕ
le_bytes zero n = []
le_bytes (suc k) n = n % 256 ∷ le_bytes k (n / 256)

pub from_le_bytes : List ℕ → ℕ
from_le_bytes [] = 0
from_le_bytes (b ∷ bs) = b + 256 * from_le_bytes bs

-- `to_be_bytes` and `from_be_bytes` of a signed integer of `k` bytes with `half` values on each side.
unfoldable pub to_be_bytes : ℕ → ℕ → ℤ → List ℕ
unfolding le_bytes to_word
to_be_bytes k half z = reverse (le_bytes k (to_word half z))

unfoldable pub from_be_bytes : ℕ → List ℕ → ℤ
unfolding from_le_bytes from_word
from_be_bytes half bs = from_word half (from_le_bytes (reverse bs))

-- `let mut buf = [0u8; k]; reader.read_exact(&mut buf)?; Ok(Self(from_be_bytes(buf)))`
unfoldable pub read_int : ℕ → ℕ → Reader ℤ
unfolding from_be_bytes
read_int k half = do buf ← read_exact k; pure (from_be_bytes half buf)

unfoldable pub write_int : ℕ → ℕ → ℤ → Writer
unfolding to_be_bytes
write_int k half z = write_all (to_be_bytes k half z)

abbrev pub half8 : ℕ
half8 = 2 ^ 7

abbrev pub half16 : ℕ
half16 = 2 ^ 15

abbrev pub half32 : ℕ
half32 = 2 ^ 31

abbrev pub half64 : ℕ
half64 = 2 ^ 63

unfoldable pub read_boolean : Reader Bool
read_boolean = do buf ← read_exact 1; pure (nonzero buf)
  where
    nonzero : List ℕ → Bool
    nonzero [] = false
    nonzero (b ∷ bs) = not (b == 0)

unfoldable pub write_boolean : Bool → Writer
write_boolean true = write_all (1 ∷ [])
write_boolean false = write_all (0 ∷ [])

unfoldable pub read_int8 : Reader ℤ
unfolding read_int
read_int8 = read_int 1 half8

unfoldable pub write_int8 : ℤ → Writer
unfolding write_int
write_int8 = write_int 1 half8

unfoldable pub read_int16 : Reader ℤ
unfolding read_int
read_int16 = read_int 2 half16

unfoldable pub write_int16 : ℤ → Writer
unfolding write_int
write_int16 = write_int 2 half16

unfoldable pub read_int32 : Reader ℤ
unfolding read_int
read_int32 = read_int 4 half32

unfoldable pub write_int32 : ℤ → Writer
unfolding write_int
write_int32 = write_int 4 half32

unfoldable pub read_int64 : Reader ℤ
unfolding read_int
read_int64 = read_int 8 half64

unfoldable pub write_int64 : ℤ → Writer
unfolding write_int
write_int64 = write_int 8 half64
