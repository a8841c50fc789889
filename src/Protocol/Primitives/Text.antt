-- ===== src/Protocol/Primitives/Text.antt =====
-- src/protocol/primitives.rs: the string types. A Rust `String` is its bytes, which are UTF-8.
pub mod Utf8
pub mod Equality
pub mod Laws
pub mod Total
use rskafka.Prelude.{
  ℕ, zero, suc, ◌+◌, if◌then◌else◌, Option, none, some, List, length, true, false,
}
use rskafka.Prelude.Int.{ℤ, pos, negsuc}
use rskafka.Prelude.Result.{Result, ok, err}
use rskafka.Protocol.Traits.{
  Reader, Writer, ReadError, WriteError, malformed, ◌>>=◌, pure, fail, lift, write_all,
  ◌then_write◌,
}
use rskafka.Protocol.VecBuilder.{read_vec}
use rskafka.Protocol.Primitives.Ints.{half16, read_int16, write_int16}
use rskafka.Protocol.Primitives.Varint.{read_unsigned_varint, write_unsigned_varint}
use rskafka.Protocol.Primitives.Lengths.{with_length, with_u64, with_usize}
use Utf8.{Text, is_utf8}

-- `String::from_utf8(buf).map_err(|e| ReadError::Malformed(..))`
pub from_utf8 : List ℕ → Result ReadError Text
from_utf8 buf = if is_utf8 buf then ok buf else err ReadError.malformed

-- The bytes of a text of known length.
unfoldable pub read_text : ℕ → Reader Text
unfolding from_utf8
read_text len = do buf ← read_vec len; lift (from_utf8 buf)

nullable_text : ℤ → Reader (Option Text)
nullable_text (negsuc zero) = pure none
nullable_text (negsuc (suc n)) = fail ReadError.malformed
nullable_text (pos len) = do s ← read_text len; pure (some s)

unfoldable pub read_nullable_string : Reader (Option Text)
unfolding nullable_text
read_nullable_string = do len ← read_int16; nullable_text len

unfoldable pub write_nullable_string : Option Text → Writer
write_nullable_string none = write_int16 (negsuc 0)
write_nullable_string (some s) =
    with_length half16 WriteError.malformed (length s) λ l. write_int16 l then_write write_all s

unfoldable pub read_string : Reader Text
read_string = do len ← read_int16; with_usize ReadError.malformed len read_text

unfoldable pub write_string : Text → Writer
write_string s =
    with_length half16 WriteError.overflow (length s) λ len. write_int16 len then_write write_all s

compact_text : ℕ → Reader Text
compact_text zero = fail ReadError.malformed
compact_text (suc len) = read_text len

unfoldable pub read_compact_string : Reader Text
unfolding compact_text
read_compact_string = do len ← read_unsigned_varint; compact_text len

-- `CompactStringRef`, which `CompactString` writes through.
unfoldable pub write_compact_string : Text → Writer
write_compact_string s =
    with_u64 (length s + 1) λ len. write_unsigned_varint len then_write write_all s

compact_nullable_text : ℕ → Reader (Option Text)
compact_nullable_text zero = pure none
compact_nullable_text (suc len) = do s ← read_text len; pure (some s)

unfoldable pub read_compact_nullable_string : Reader (Option Text)
unfolding compact_nullable_text
read_compact_nullable_string = do len ← read_unsigned_varint; compact_nullable_text len

-- `CompactNullableStringRef`, which `CompactNullableString` writes through.
unfoldable pub write_compact_nullable_string : Option Text → Writer
write_compact_nullable_string none = write_unsigned_varint 0
write_compact_nullable_string (some s) =
    with_u64 (length s + 1) λ len. write_unsigned_varint len then_write write_all s
