-- ===== src/Protocol/Primitives/RoundTrip.antt =====
-- What src/protocol/primitives.rs promises: a value within its type's limits is written, and read
-- back, with whatever follows it left in the source.
use rskafka.Prelude.{ℕ, ◌+◌, ◌*◌, ◌^◌, ◌<◌, ◌≤◌, ◌≡◌, refl, Option, List, ◌++◌, length, All}
use rskafka.Prelude.Int.{ℤ, InRange}
use rskafka.Prelude.Result.{ok}
use rskafka.Protocol.Traits.Succeeds.{encodes}
use rskafka.Protocol.Primitives.Ints.{half16, half32, to_be_bytes, read_int, write_int}
use rskafka.Protocol.Primitives.Ints.Laws.{length-to_be_bytes, int-RoundTrips}
use rskafka.Protocol.Primitives.Varint.{u64_mod, read_unsigned_varint, write_unsigned_varint}
use rskafka.Protocol.Primitives.Varint.Laws.{
  write_unsigned_varint_shape, unsigned_varint-RoundTrips,
}
use rskafka.Protocol.Primitives.Text.{
  read_string, write_string, read_nullable_string, write_nullable_string, read_compact_string,
  write_compact_string,
}
use rskafka.Protocol.Primitives.Text.Utf8.{Text}
use rskafka.Protocol.Primitives.Text.Laws.{
  IsText, IsOptText, string-RoundTrips, nullable_string-RoundTrips, compact_string-RoundTrips,
}
use rskafka.Protocol.Primitives.ByteStrings.{read_nullable_bytes, write_nullable_bytes}
use rskafka.Protocol.Primitives.ByteStrings.Laws.{nullable_bytes-RoundTrips}
use rskafka.Protocol.Primitives.Collections.{TaggedFields, read_tagged_fields, write_tagged_fields}
use rskafka.Protocol.Primitives.Collections.Laws.{tagged_fields-RoundTrips}
use rskafka.Protocol.Primitives.Codecs.{
  FitsBelow, FitTagged, unsigned_varint-Succeeds, string-Succeeds, nullable_string-Succeeds,
  compact_string-Succeeds, nullable_bytes-Succeeds, tagged_fields-Succeeds, FitTagged-IsTagged,
}

-- A signed integer that fits `k` bytes is written as exactly `k` bytes, and reading them gives it
-- back and leaves what follows. INT8 to INT64 are this at k = 1, 2, 4 and 8.
pub int_round_trip :
    (k half : ℕ) (z : ℤ)
    → 2 * half ≡ 256 ^ k
    → InRange half z
    → (bs : List ℕ) × (write_int k half z ≡ ok bs)
      × (length bs ≡ k)
      × ((rest : List ℕ) → read_int k half (bs ++ rest) ≡ ok (z, rest))
unfolding write_int
int_round_trip k half z full h = (
  to_be_bytes k half z,
  refl,
  length-to_be_bytes k half full z,
  ((int-RoundTrips k half full z h).back _ (unfold write_int in refl)).at,
)

-- Every u64 is written as an UNSIGNED_VARINT of one to ten bytes, and reading them gives it back
-- and leaves what follows.
pub unsigned_varint_round_trip :
    (v : ℕ)
    → v < u64_mod
    → (bs : List ℕ) × (write_unsigned_varint v ≡ ok bs)
      × (1 ≤ length bs)
      × (length bs ≤ 10)
      × All (λ b. b < 256) bs
      × ((rest : List ℕ) → read_unsigned_varint (bs ++ rest) ≡ ok (v, rest))
unsigned_varint_round_trip v h =
    let (bs, e, back) = encodes (unsigned_varint-RoundTrips v h) (unsigned_varint-Succeeds v h) in
    let (few, many, small) = write_unsigned_varint_shape v bs h e in (bs, e, few, many, small, back)

-- A STRING of fewer than 2 ^ 15 bytes is written, and reading it gives it back and leaves what
-- follows.
pub string_round_trip :
    (s : Text)
    → IsText s
    → length s < half16
    → (bs : List ℕ) × (write_string s ≡ ok bs)
      × ((rest : List ℕ) → read_string (bs ++ rest) ≡ ok (s, rest))
string_round_trip s h n = encodes (string-RoundTrips s h) (string-Succeeds s n)

-- So is a NULLABLE_STRING, null or of fewer than 2 ^ 15 bytes; null and the empty string differ.
pub nullable_string_round_trip :
    (s : Option Text)
    → IsOptText s
    → FitsBelow half16 s
    → (bs : List ℕ) × (write_nullable_string s ≡ ok bs)
      × ((rest : List ℕ) → read_nullable_string (bs ++ rest) ≡ ok (s, rest))
nullable_string_round_trip s h n =
    encodes (nullable_string-RoundTrips s h) (nullable_string-Succeeds s n)

-- A COMPACT_STRING whose length fits a u64 is written, and reading it gives it back and leaves what
-- follows.
pub compact_string_round_trip :
    (s : Text)
    → IsText s
    → length s + 1 < u64_mod
    → (bs : List ℕ) × (write_compact_string s ≡ ok bs)
      × ((rest : List ℕ) → read_compact_string (bs ++ rest) ≡ ok (s, rest))
compact_string_round_trip s h n =
    encodes (compact_string-RoundTrips s h) (compact_string-Succeeds s n)

-- NULLABLE_BYTES, null or fewer than 2 ^ 31 bytes, are written, and reading them gives them back and
-- leaves what follows.
pub nullable_bytes_round_trip :
    (b : Option (List ℕ))
    → FitsBelow half32 b
    → (bs : List ℕ) × (write_nullable_bytes b ≡ ok bs)
      × ((rest : List ℕ) → read_nullable_bytes (bs ++ rest) ≡ ok (b, rest))
nullable_bytes_round_trip b n = encodes (nullable_bytes-RoundTrips b) (nullable_bytes-Succeeds b n)

-- A section of tagged fields, whose number, tags and lengths fit a u64, is written, and reading it
-- gives it back, in order, and leaves what follows.
pub tagged_fields_round_trip :
    (fs : TaggedFields)
    → length fs < u64_mod
    → FitTagged fs
    → (bs : List ℕ) × (write_tagged_fields fs ≡ ok bs)
      × ((rest : List ℕ) → read_tagged_fields (bs ++ rest) ≡ ok (fs, rest))
tagged_fields_round_trip fs n h =
    encodes (tagged_fields-RoundTrips fs (FitTagged-IsTagged fs h)) (tagged_fields-Succeeds fs n h)
