-- ===== src/Protocol/Primitives/Lengths.antt =====
-- The checked conversions of lengths in src/protocol/primitives.rs and src/protocol/record.rs, and
-- the round trip of bytes that follow their length.
use native.Mathlib.Numerals.{add-one}
use rskafka.Prelude.{
  ℕ, suc, ◌+◌, ◌<◌, sym, subst, arith, Bool-cases, ltb, ltb→lt, if◌then◌else◌, inl, inr, List,
  length,
}
use rskafka.Prelude.Int.{ℤ, pos, negsuc}
use rskafka.Prelude.Result.{ok, err}
use rskafka.Protocol.Traits.{Reader, Writes, WriteError, ReadError, fail}
use rskafka.Protocol.Traits.Laws.{Reads, RoundTrips, Reads→RoundTrips, read_exact-Reads}
use rskafka.Protocol.VecBuilder.{read_vec}
use rskafka.Protocol.VecBuilder.Refinement.{read_vec-read_exact}
use rskafka.Protocol.Primitives.Varint.{u64_mod, read_unsigned_varint, write_unsigned_varint}
use rskafka.Protocol.Primitives.Varint.Laws.{unsigned_varint-RoundTrips}

-- `i16::try_from(len)` and `i32::try_from(len)` with the error that the caller maps them to.
abbrev pub with_length : {E : Type 0} → ℕ → E → ℕ → (ℤ → Writes E) → Writes E
with_length half e len k = if ltb len half then k (pos len) else err e

-- `u64::try_from(len)`.
abbrev pub with_u64 : ℕ → (ℕ → Writes WriteError) → Writes WriteError
with_u64 len k = if ltb len u64_mod then k len else err WriteError.overflow

-- `usize::try_from(i)` with the error that the caller maps it to.
abbrev pub with_usize : {A : Type 0} → ReadError → ℤ → (ℕ → Reader A) → Reader A
with_usize e (pos n) k = k n
with_usize e (negsuc n) k = fail e

pub if-RoundTrips :
    {E A : Type 0} (r : Reader A) (len bound : ℕ) (e : E) (w : Writes E) (a : A)
    → (len < bound → RoundTrips r w a)
    → RoundTrips r (if ltb len bound then w else err e) a
if-RoundTrips r len bound e w a h = elim (Bool-cases (ltb len bound)) [
  | inl fits ↦ rw fits (h (ltb→lt len bound fits))
  | inr large ↦ rw large (record { back = λ bs q. cc })
]

pub read_vec-Reads : (bs : List ℕ) → Reads (read_vec (length bs)) bs bs
read_vec-Reads bs = record { at = λ rest. rw read_vec-read_exact ((read_exact-Reads bs).at rest) }

pub read_vec-RoundTrips :
    {E : Type 0} (bs : List ℕ) → RoundTrips {E = E} (read_vec (length bs)) (ok bs) bs
read_vec-RoundTrips bs = Reads→RoundTrips (read_vec-Reads bs)

-- The length that is written, one more than the text's.
pub compact_prefix :
    (n : ℕ)
    → n + 1 < u64_mod
    → RoundTrips read_unsigned_varint (write_unsigned_varint (n + 1)) (suc n)
compact_prefix n h =
    subst (λ k. RoundTrips read_unsigned_varint (write_unsigned_varint k) (suc n)) (sym (add-one n))
      (unsigned_varint-RoundTrips (suc n) (omega arith))
