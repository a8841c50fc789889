-- ===== src/Protocol/Primitives/ByteStrings.antt =====
-- src/protocol/primitives.rs: BYTES, COMPACT_BYTES and NULLABLE_BYTES.
pub mod Laws
use rskafka.Prelude.{ℕ, zero, suc, ◌+◌, Option, none, some, List, length}
use rskafka.Prelude.Int.{ℤ, pos, negsuc}
use rskafka.Protocol.Traits.{
  Reader, Writer, ReadError, WriteError, ◌>>=◌, pure, fail, crash, write_all, ◌then_write◌,
}
use rskafka.Protocol.VecBuilder.{read_vec}
use rskafka.Protocol.Primitives.Ints.{half32, read_int32, write_int32}
use rskafka.Protocol.Primitives.Varint.{read_unsigned_varint, write_unsigned_varint}
use rskafka.Protocol.Primitives.Lengths.{with_length, with_u64, with_usize}

unfoldable pub read_bytes : Reader (List ℕ)
read_bytes = do len ← read_int32; with_usize ReadError.overflow len read_vec

unfoldable pub write_bytes : List ℕ → Writer
write_bytes bs =
    with_length half32 WriteError.malformed (length bs) λ l. write_int32 l then_write write_all bs

-- `let len = len - 1` overflows at a length of 0. A build with overflow checks (the debug profile)
-- panics there, which is what is modelled; without them the length becomes 2 ^ 64 - 1.
compact_bytes : ℕ → Reader (List ℕ)
compact_bytes zero = crash
compact_bytes (suc len) = read_vec len

unfoldable pub read_compact_bytes : Reader (List ℕ)
unfolding compact_bytes
read_compact_bytes = do len ← read_unsigned_varint; compact_bytes len

-- `CompactBytesRef`, which `CompactBytes` writes through.
unfoldable pub write_compact_bytes : List ℕ → Writer
write_compact_bytes bs =
    with_u64 (length bs + 1) λ len. write_unsigned_varint len then_write write_all bs

nullable_bytes : ℤ → Reader (Option (List ℕ))
nullable_bytes (negsuc zero) = pure none
nullable_bytes (negsuc (suc n)) = fail ReadError.malformed
nullable_bytes (pos len) = do bs ← read_vec len; pure (some bs)

unfoldable pub read_nullable_bytes : Reader (Option (List ℕ))
unfolding nullable_bytes
read_nullable_bytes = do len ← read_int32; nullable_bytes len

unfoldable pub write_nullable_bytes : Option (List ℕ) → Writer
write_nullable_bytes none = write_int32 (negsuc 0)
write_nullable_bytes (some bs) =
    with_length half32 WriteError.malformed (length bs) λ l. write_int32 l then_write write_all bs
