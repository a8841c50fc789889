-- ===== src/Protocol/Primitives/Varint.antt =====
-- src/protocol/primitives.rs: UNSIGNED_VARINT, seven bits to a byte, the lowest first.
pub mod Laws
pub mod Overflow
use rskafka.Prelude.{
  ℕ, zero, suc, ◌+◌, ◌*◌, ◌/◌, ◌%◌, ◌^◌, ◌<◌, arith, bit_and, bit_or, ◌==◌, ltb, if◌then◌else◌,
  List, [], ◌∷◌, ◌++◌,
}
use mathlib.Core.Logic.{dite}
use mathlib.Core.WellFounded.{Acc}
use native.Mathlib.Decide.{dec_lt}
use rskafka.Prelude.Order.{lt_wf}
use rskafka.Prelude.Result.{Result, ok, err, panic}
use rskafka.Protocol.Traits.{
  Reader, Writer, ReadError, io, unexpected_eof, malformed, write_all, ◌then_write◌,
}

abbrev pub u64_mod : ℕ
u64_mod = 2 ^ 64

-- `res |= (c & 0x7f) << shift` on a u64, whose `<<` drops what passes bit 63.
abbrev pub add_group : ℕ → ℕ → ℕ → ℕ
add_group res c shift = bit_or res (bit_and c 0x7f * 2 ^ shift % u64_mod)

-- The loop, over the bytes that are left. A `read_exact` of one byte fails at their end only.
pub read_groups : List ℕ → ℕ → ℕ → Result ReadError (ℕ × List ℕ)
read_groups [] res shift = err (io unexpected_eof)
read_groups (c ∷ rest) res shift =
    let res' = add_group res c shift in
    let more = read_groups rest res' (shift + 7) in
    if bit_and c 0x80 == 0
    then ok (res', rest)
    else if ltb 63 (shift + 7)
    then err malformed
    else more

unfoldable pub read_unsigned_varint : Reader ℕ
unfolding read_groups
read_unsigned_varint s = read_groups s 0 0

shift_shrinks : (curr : ℕ) → 0 < curr / 128 → curr / 128 < curr
shift_shrinks curr h = omega arith

-- `curr >>= 7` is `curr / 128`; the loop goes on while that is not 0.
pub write_groups : (curr : ℕ) → Acc ◌<◌ curr → Writer
write_groups curr (Acc.intro _ smaller) =
    let c = bit_and curr 0x7f in
    dite (dec_lt 0 (curr / 128))
      (λ more.
        write_all (bit_or c 0x80 ∷ [])
        then_write write_groups (curr / 128) (smaller _ (shift_shrinks curr more)))
      (λ _. write_all (c ∷ []))

unfoldable pub write_unsigned_varint : ℕ → Writer
unfolding write_groups shift_shrinks lt_wf dec_lt
write_unsigned_varint v = write_groups v (lt_wf.apply v)
