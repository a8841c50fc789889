-- ===== src/Protocol/Primitives/Zigzag.antt =====
-- VARINT and VARLONG of src/protocol/primitives.rs. The zigzag code of an i64 is that of the crate
-- integer-encoding, a parameter here.
pub mod Laws
use rskafka.Prelude.{ℕ, ◌-◌, ◌<◌, Bool, ◌&&◌, if◌then◌else◌, List}
use rskafka.Prelude.Int.{ℤ, pos, negsuc, InRange, leb_ℤ}
use rskafka.Protocol.Traits.{Reader, Writer, ReadError, ◌>>=◌, pure, fail, write_all}
use rskafka.Protocol.Traits.Laws.{Reads}
use rskafka.Protocol.Primitives.Ints.{half32, half64}

-- `VarIntReader::read_varint::<i64>` and `VarIntWriter::write_varint` into a vector.
pub record Zigzag : Type 0 where
  pub read_varint : Reader ℤ
  pub write_varint : ℤ → List ℕ

-- What the crate documents: an i64 that was written is read back, and nothing more is taken.
pub record ZigzagLaws (z : Zigzag) : Type 0 where
  pub back : (i : ℤ) → InRange half64 i → Reads z.read_varint (z.write_varint i) i

module _ (z : Zigzag) where
  -- `i32::try_from(i)?`
  checked_i32 : ℤ → Reader ℤ
  checked_i32 i =
      if leb_ℤ (negsuc (half32 - 1)) i && leb_ℤ i (pos (half32 - 1))
      then pure i
      else fail ReadError.overflow

  unfoldable pub read_varint : Reader ℤ
  unfolding checked_i32
  read_varint = do i ← z.read_varint; checked_i32 i

  unfoldable pub write_varint : ℤ → Writer
  write_varint i = write_all (z.write_varint i)

  unfoldable pub read_varlong : Reader ℤ
  read_varlong = z.read_varint

  unfoldable pub write_varlong : ℤ → Writer
  write_varlong i = write_all (z.write_varint i)
