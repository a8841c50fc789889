-- ===== src/Protocol/Record/Attributes.antt =====
-- The attributes of a record batch in src/protocol/record.rs: an i16 of flags, as its word.
use rskafka.Prelude.{
  ℕ, ◌+◌, ◌*◌, ◌/◌, ◌^◌, ◌<◌, ◌≤◌, ◌==◌, ◌≡◌, refl, ap, ◌∙◌, arith, Bool, true, false,
  if◌then◌else◌, Option, none, some, bit_and, bit_or,
}
use rskafka.Prelude.Bits.{and_1, and_7, or_shifted}
use rskafka.Protocol.Record.{
  RecordBatchCompression, no_compression, gzip, snappy, lz4, zstd, RecordBatchTimestampType,
  create_time, log_append_time,
}

unfoldable pub compression_code : RecordBatchCompression → ℕ
compression_code no_compression = 0
compression_code gzip = 1
compression_code snappy = 2
compression_code lz4 = 3
compression_code zstd = 4

-- `match attributes & 0x7`
unfoldable pub compression_of : ℕ → Option RecordBatchCompression
compression_of n =
    if n == 0
    then some no_compression
    else if n == 1
    then some gzip
    else if n == 2
    then some snappy
    else if n == 3
    then some lz4
    else if n == 4
    then some zstd
    else none

abbrev pub logs_append : RecordBatchTimestampType → Bool
logs_append create_time = false
logs_append log_append_time = true

-- `attributes |= 1 << s`
abbrev pub flag : ℕ → Bool → ℕ → ℕ
flag s b a = if b then bit_or a (1 * 2 ^ s) else a

unfoldable pub attributes_of : RecordBatchCompression → RecordBatchTimestampType → Bool → Bool → ℕ
attributes_of c t is_transactional is_control =
    flag 5 is_control (flag 4 is_transactional (flag 3 (logs_append t) (compression_code c)))

unfoldable pub compression_in : ℕ → Option RecordBatchCompression
compression_in attributes = compression_of (bit_and attributes 7)

unfoldable pub timestamp_type_in : ℕ → RecordBatchTimestampType
timestamp_type_in attributes =
    if bit_and (attributes / 2 ^ 3) 1 == 0 then create_time else log_append_time

unfoldable pub is_transactional_in : ℕ → Bool
is_transactional_in attributes = bit_and (attributes / 2 ^ 4) 1 == 1

unfoldable pub is_control_in : ℕ → Bool
is_control_in attributes = bit_and (attributes / 2 ^ 5) 1 == 1

abbrev bit : Bool → ℕ
bit b = if b then 1 else 0

bit-le : (b : Bool) → bit b ≤ 1
bit-le true = omega arith
bit-le false = omega arith

bit-test : (b : Bool) → (bit b == 1) ≡ b
bit-test true = refl
bit-test false = refl

bit-timestamp :
    (t : RecordBatchTimestampType)
    → (if bit (logs_append t) == 0 then create_time else log_append_time) ≡ t
bit-timestamp create_time = refl
bit-timestamp log_append_time = refl

flag-sum : (s : ℕ) (b : Bool) (a : ℕ) → a < 2 ^ s → flag s b a ≡ a + bit b * 2 ^ s
flag-sum s true a h = or_shifted s a 1 h
flag-sum s false a h = omega arith

code-lt : (c : RecordBatchCompression) → compression_code c < 5
unfolding compression_code
code-lt no_compression = omega arith
code-lt gzip = omega arith
code-lt snappy = omega arith
code-lt lz4 = omega arith
code-lt zstd = omega arith

compression_of-code : (c : RecordBatchCompression) → compression_of (compression_code c) ≡ some c
unfolding compression_code compression_of
compression_of-code no_compression = refl
compression_of-code gzip = refl
compression_of-code snappy = refl
compression_of-code lz4 = refl
compression_of-code zstd = refl

module _ (c : RecordBatchCompression) (t : RecordBatchTimestampType) (x k : Bool) where
  attributes-sum :
      attributes_of c t x k ≡ compression_code c + bit (logs_append t) * 8 + bit x * 16 + bit k * 32
  unfolding attributes_of
  attributes-sum =
      let n = compression_code c in
      let first = flag 3 (logs_append t) n in
      let a = flag-sum 3 (logs_append t) n (omega (arith, code-lt c)) in
      let b = flag-sum 4 x first (omega (arith, a, code-lt c, bit-le (logs_append t))) in
      let d =
        flag-sum 5 k (flag 4 x first)
          (omega (arith, a, b, code-lt c, bit-le (logs_append t), bit-le x)) in
      omega (arith, a, b, d)

  low_bits : bit_and (attributes_of c t x k) 7 ≡ compression_code c
  low_bits = omega (arith, and_7 (attributes_of c t x k), attributes-sum, code-lt c)

  timestamp_bit : bit_and (attributes_of c t x k / 2 ^ 3) 1 ≡ bit (logs_append t)
  timestamp_bit = omega (
    arith,
    and_1 (attributes_of c t x k / 2 ^ 3),
    attributes-sum,
    code-lt c,
    bit-le (logs_append t),
  )

  transactional_bit : bit_and (attributes_of c t x k / 2 ^ 4) 1 ≡ bit x
  transactional_bit = omega (
    arith,
    and_1 (attributes_of c t x k / 2 ^ 4),
    attributes-sum,
    code-lt c,
    bit-le (logs_append t),
    bit-le x,
  )

  control_bit : bit_and (attributes_of c t x k / 2 ^ 5) 1 ≡ bit k
  control_bit = omega (
    arith,
    and_1 (attributes_of c t x k / 2 ^ 5),
    attributes-sum,
    code-lt c,
    bit-le (logs_append t),
    bit-le x,
    bit-le k,
  )

  -- The flags of a batch are read back from its attributes one by one, whatever the others are, and
  -- the attributes use the low six bits of the word only.
  pub attributes_round_trip :
      (compression_in (attributes_of c t x k) ≡ some c)
      × (timestamp_type_in (attributes_of c t x k) ≡ t)
      × (is_transactional_in (attributes_of c t x k) ≡ x)
      × (is_control_in (attributes_of c t x k) ≡ k)
      × (attributes_of c t x k < 2 ^ 6)
  unfolding compression_in timestamp_type_in is_transactional_in is_control_in
  attributes_round_trip = (
    ap compression_of low_bits ∙ compression_of-code c,
    rw timestamp_bit (bit-timestamp t),
    rw transactional_bit (bit-test x),
    rw control_bit (bit-test k),
    omega (arith, attributes-sum, code-lt c, bit-le (logs_append t), bit-le x, bit-le k),
  )
