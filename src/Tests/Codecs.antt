-- ===== src/Tests/Codecs.antt =====
-- The theorems about the wire format of src/protocol at concrete inputs.
use rskafka.Prelude.{ℕ, ◌≤◌, ◌<◌, ◌≡◌, refl, arith, List, [], ◌∷◌, ◌++◌, length, All}
use rskafka.Prelude.Result.{ok}
use rskafka.Protocol.Traits.{read_exact, read_times}
use rskafka.Protocol.VecBuilder.{read_vec, read_elements}
use rskafka.Protocol.VecBuilder.Refinement.{read_vec-read_exact}
use rskafka.Protocol.VecBuilder.Elements.{read_elements-read_times}
use rskafka.Protocol.Primitives.Ints.{read_int16}
use rskafka.Protocol.Primitives.Varint.{
  u64_mod, add_group, read_unsigned_varint, write_unsigned_varint,
}
use rskafka.Protocol.Primitives.Varint.Overflow.{
  IsContinued, groups, read_unsigned_varint_takes, tenth_byte,
}
use rskafka.Protocol.Primitives.RoundTrip.{unsigned_varint_round_trip}
use rskafka.Protocol.Frame.{
  message, failed, message_too_large, read_message, write_message, skip, out_of_rounds,
}
use rskafka.Protocol.Frame.Laws.{frame_round_trip, frame_too_large, skip_zero_limit}

abbrev bytes : List ℕ
bytes = 1 ∷ 2 ∷ 3 ∷ 4 ∷ []

read_vec-read_exact_example : read_vec 3 bytes ≡ read_exact 3 bytes
read_vec-read_exact_example = read_vec-read_exact 3 bytes

read_elements-read_times_example :
    read_elements 2 2 read_int16 bytes ≡ read_times 2 read_int16 bytes
read_elements-read_times_example =
    read_elements-read_times read_int16 2 2 bytes (omega arith) (omega arith)

unsigned_varint_round_trip_example :
    (bs : List ℕ) × (write_unsigned_varint 300 ≡ ok bs)
    × (1 ≤ length bs)
    × (length bs ≤ 10)
    × All (λ b. b < 256) bs
    × ((rest : List ℕ) → read_unsigned_varint (bs ++ rest) ≡ ok (300, rest))
unsigned_varint_round_trip_example = unsigned_varint_round_trip 300 (omega arith)

read_unsigned_varint_300 : read_unsigned_varint (172 ∷ 2 ∷ 9 ∷ []) ≡ ok (300, 9 ∷ [])
unfolding read_unsigned_varint
read_unsigned_varint_300 = refl

read_unsigned_varint_takes_example : (300 < u64_mod) × (1 < 3) × (3 ≤ 11)
read_unsigned_varint_takes_example =
    read_unsigned_varint_takes (172 ∷ 2 ∷ 9 ∷ []) 300 (9 ∷ []) read_unsigned_varint_300

abbrev nine : List ℕ
nine = 128 ∷ 128 ∷ 128 ∷ 128 ∷ 128 ∷ 128 ∷ 128 ∷ 128 ∷ 128 ∷ []

continued : IsContinued 128
continued = (omega arith, omega arith)

nine-IsContinued : All IsContinued nine
nine-IsContinued = (
  continued,
  (
    continued,
    (continued, (continued, (continued, (continued, (continued, (continued, (continued, tt))))))),
  ),
)

tenth_byte_example :
    read_unsigned_varint (nine ++ 126 ∷ []) ≡ ok (add_group (groups nine 0 0) 0 63, [])
tenth_byte_example = tenth_byte nine 126 [] refl nine-IsContinued (omega arith)

frame_round_trip_example :
    (bs : List ℕ) × (write_message bytes ≡ ok bs)
    × ((rest : List ℕ) → read_message 100 (bs ++ rest) ≡ (message bytes, rest))
frame_round_trip_example = frame_round_trip bytes 100 (omega arith) (omega arith)

frame_too_large_example :
    (bs : List ℕ) × (write_message bytes ≡ ok bs)
    × ((rest : List ℕ) → read_message 3 (bs ++ rest) ≡ (failed (message_too_large 3 4), rest))
frame_too_large_example = frame_too_large bytes 3 (omega arith) (omega arith) (omega arith)

skip_zero_limit_example : skip 7 0 4 bytes ≡ out_of_rounds
skip_zero_limit_example = skip_zero_limit 7 4 bytes (omega arith)
