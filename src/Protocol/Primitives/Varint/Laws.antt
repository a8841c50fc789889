-- ===== src/Protocol/Primitives/Varint/Laws.antt =====
-- UNSIGNED_VARINT of src/protocol/primitives.rs: the bytes that are written, in plain arithmetic,
-- and the round trip.
use rskafka.Prelude.{
  ℕ, zero, suc, ◌+◌, ◌*◌, ◌/◌, ◌%◌, ◌^◌, ◌≤◌, ◌<◌, ◌≡◌, ap, sym, ◌∙◌, arith, ltb, if◌then◌else◌,
  List, [], ◌∷◌, ◌++◌, length, All, bit_and, bit_or,
}
use rskafka.Prelude.Bits.{and_7f, and_80, or_80, or_shifted}
use rskafka.Prelude.Order.{lt_wf}
use rskafka.Prelude.Result.{ok}
use mathlib.Core.WellFounded.{Acc}
use native.Mathlib.Nat.{pow-suc}
use native.Mathlib.Numerals.{towards_suc}
use rskafka.Protocol.Traits.{◌then_write◌}
use rskafka.Protocol.Traits.Laws.{RoundTrips, Reads→RoundTrips, written}
use rskafka.Protocol.Primitives.Varint.{
  u64_mod, read_groups, read_unsigned_varint, write_groups, write_unsigned_varint,
}

-- The bytes of a number below 128 ^ (k + 1).
unfoldable pub groups : ℕ → ℕ → List ℕ
groups zero v = v ∷ []
groups (suc k) v =
    let rest = groups k (v / 128) in if ltb v 128 then v ∷ [] else (v % 128 + 128) ∷ rest

marked : (v : ℕ) → bit_or (bit_and v 0x7f) 0x80 ≡ v % 128 + 128
marked v = ap (λ (c : ℕ). bit_or c 0x80) (and_7f v) ∙ or_80 (v % 128) (omega arith)

write_groups-groups :
    (k v : ℕ) (w : Acc ◌<◌ v) → v < 128 ^ suc k → write_groups v w ≡ ok (groups k v)
unfolding write_groups groups ◌then_write◌
write_groups-groups zero v (Acc.intro _ smaller) h = ground (arith, and_7f v)
write_groups-groups (suc k) v (Acc.intro _ smaller) h = grind (
  arith,
  and_7f v,
  marked v,
  λ (w : Acc ◌<◌ (v / 128)). write_groups-groups k (v / 128) w (omega (arith, pow-suc 128 (suc k))),
)

pub write_unsigned_varint-groups : (v : ℕ) → v < u64_mod → write_unsigned_varint v ≡ ok (groups 9 v)
unfolding write_unsigned_varint
write_unsigned_varint-groups v h = write_groups-groups 9 v (lt_wf.apply v) (omega arith)

-- One round of the reader on a last byte, and on a byte with the top bit set.
last_group :
    (v res shift : ℕ) (rest : List ℕ)
    → v < 128
    → res < 2 ^ shift
    → res + v * 2 ^ shift < u64_mod
    → read_groups (v ∷ rest) res shift ≡ ok (res + v * 2 ^ shift, rest)
unfolding read_groups
last_group v res shift rest hv hr fits = ground (arith, and_7f v, and_80 v, or_shifted shift res v)

inner_group :
    (g res shift : ℕ) (rest : List ℕ)
    → g < 128
    → shift + 7 ≤ 63
    → res < 2 ^ shift
    → res + g * 2 ^ shift < u64_mod
    → read_groups ((g + 128) ∷ rest) res shift ≡ read_groups rest (res + g * 2 ^ shift) (shift + 7)
unfolding read_groups
inner_group g res shift rest hg hs hr fits =
    ground (arith, and_7f (g + 128), and_80 (g + 128), or_shifted shift res g)

seven_more : (s : ℕ) → 2 ^ (s + 7) ≡ 128 * 2 ^ s
seven_more s = simp towards_suc (omega arith)

-- `v` in units of `m`, cut after seven bits.
cut_group : (v m : ℕ) → v * m ≡ v % 128 * m + v / 128 * (128 * m)
cut_group v m = omega (arith, ap (λ (t : ℕ). t * m) (digit v))
  where
    digit : (v : ℕ) → v ≡ v % 128 + v / 128 * 128
    digit v = omega arith

-- Reading starts at bit `shift`, over what was read before.
read_groups-groups :
    (k v res shift : ℕ) (rest : List ℕ)
    → v < 128 ^ suc k
    → shift + 7 * k ≤ 63
    → res < 2 ^ shift
    → res + v * 2 ^ shift < u64_mod
    → read_groups (groups k v ++ rest) res shift ≡ ok (res + v * 2 ^ shift, rest)
unfolding groups
read_groups-groups zero v res shift rest hv hs hr fits = last_group v res shift rest hv hr fits
read_groups-groups (suc k) v res shift rest hv hs hr fits = grind (
  arith,
  pow-suc 128 (suc k),
  last_group v res shift rest,
  seven_more shift,
  cut_group v (2 ^ shift),
  inner_group (v % 128) res shift (groups k (v / 128) ++ rest),
  read_groups-groups k (v / 128) (res + v % 128 * 2 ^ shift) (shift + 7) rest,
)

pub unsigned_varint-RoundTrips :
    (v : ℕ) → v < u64_mod → RoundTrips read_unsigned_varint (write_unsigned_varint v) v
unfolding read_unsigned_varint
unsigned_varint-RoundTrips v h =
    rw (write_unsigned_varint-groups v h)
      (Reads→RoundTrips (record { at = λ rest. ground (arith, read_groups-groups 9 v 0 0 rest) }))

-- The number of bytes, and that they are bytes.
groups_shape :
    (k v : ℕ)
    → v < 128 ^ suc k
    → (1 ≤ length (groups k v)) × (length (groups k v) ≤ k + 1) × All (λ b. b < 256) (groups k v)
unfolding groups
groups_shape zero v h = (omega arith, omega arith, (omega arith, tt))
groups_shape (suc k) v h = ground (arith, pow-suc 128 (suc k), groups_shape k (v / 128))

pub write_unsigned_varint_shape :
    (v : ℕ) (bs : List ℕ)
    → v < u64_mod
    → write_unsigned_varint v ≡ ok bs
    → (1 ≤ length bs) × (length bs ≤ 10) × All (λ b. b < 256) bs
write_unsigned_varint_shape v bs h e =
    rw (← ap written (sym (write_unsigned_varint-groups v h) ∙ e)) (groups_shape 9 v (omega arith))
