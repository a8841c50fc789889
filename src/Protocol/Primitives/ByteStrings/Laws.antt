-- ===== src/Protocol/Primitives/ByteStrings/Laws.antt =====
-- Round trips of the byte strings of src/protocol/primitives.rs.
use rskafka.Protocol.Primitives.Varint.Overflow.{zero_byte}
use rskafka.Prelude.{◌≡◌, ◌∷◌, ℕ, ◌+◌, refl, arith, Option, none, some, List, length}
use rskafka.Prelude.Result.{panic}
use rskafka.Prelude.Int.{pos, negsuc}
use rskafka.Protocol.Traits.{WriteError}
use rskafka.Protocol.Traits.Laws.{
  bind_ok, RoundTrips, RoundTrips-bind, RoundTrips-last, RoundTrips-end,
}
use rskafka.Protocol.Primitives.Ints.{half32}
use rskafka.Protocol.Primitives.Ints.Laws.{int32-RoundTrips}
use rskafka.Protocol.Primitives.Varint.{u64_mod, read_unsigned_varint}
use rskafka.Protocol.Primitives.Lengths.{if-RoundTrips, read_vec-RoundTrips, compact_prefix}
use rskafka.Protocol.Primitives.ByteStrings.{
  compact_bytes, read_bytes, write_bytes, read_compact_bytes, write_compact_bytes,
  read_nullable_bytes, write_nullable_bytes,
}

pub bytes-RoundTrips : (bs : List ℕ) → RoundTrips read_bytes (write_bytes bs) bs
unfolding read_bytes write_bytes
bytes-RoundTrips bs =
    if-RoundTrips _ (length bs) half32 WriteError.malformed _ bs
      (λ fits. RoundTrips-bind _ (int32-RoundTrips (pos (length bs)) fits) (read_vec-RoundTrips bs))

pub compact_bytes-RoundTrips :
    (bs : List ℕ) → RoundTrips read_compact_bytes (write_compact_bytes bs) bs
unfolding read_compact_bytes write_compact_bytes
compact_bytes-RoundTrips bs =
    if-RoundTrips _ (length bs + 1) u64_mod WriteError.overflow _ bs
      (λ fits. RoundTrips-bind _ (compact_prefix (length bs) fits) (read_vec-RoundTrips bs))

pub nullable_bytes-RoundTrips :
    (bs : Option (List ℕ)) → RoundTrips read_nullable_bytes (write_nullable_bytes bs) bs
unfolding read_nullable_bytes write_nullable_bytes
nullable_bytes-RoundTrips none =
    RoundTrips-end _ none (int32-RoundTrips (negsuc 0) (omega arith)) (λ rest. refl)
nullable_bytes-RoundTrips (some bs) =
    if-RoundTrips _ (length bs) half32 WriteError.malformed _ (some bs) (λ fits.
      RoundTrips-bind _ (int32-RoundTrips (pos (length bs)) fits)
        (RoundTrips-last some (read_vec-RoundTrips bs)))

-- The length 0 of compact bytes, which no writer writes.
pub empty_bytes : (rest : List ℕ) → read_compact_bytes (0 ∷ rest) ≡ panic
unfolding read_compact_bytes compact_bytes
empty_bytes rest = bind_ok read_unsigned_varint _ (0 ∷ rest) (zero_byte rest)
