-- ===== src/Protocol/Messages/Arrays.antt =====
-- Arrays of versioned objects, of src/protocol/messages/mod.rs. The reader and the writer of an element
-- are those of the version. The readers collect the elements in a `VecBuilder`; that this is
-- `read_times` is a theorem of Protocol/VecBuilder/Elements.antt.
pub mod Laws
use rskafka.Prelude.{ℕ, zero, suc, ◌+◌, ltb, if◌then◌else◌, Option, none, some, List, length}
use rskafka.Prelude.Int.{ℤ, pos, negsuc}
use rskafka.Prelude.Result.{err}
use rskafka.Protocol.Traits.{
  Reader, ReadError, WriteError, ◌>>=◌, pure, fail, read_times, ◌then_write◌, write_each,
}
use rskafka.Protocol.Primitives.Ints.{half32, read_int32, write_int32}
use rskafka.Protocol.Primitives.Varint.{u64_mod, read_unsigned_varint, write_unsigned_varint}
use rskafka.Protocol.Primitives.Lengths.{with_length}
use rskafka.Protocol.Messages.Fields.{write_error, VersionedWriter, plain}

module _ {A : Type 0} where
  abbrev pub array_of_len : Reader A → ℤ → Reader (Option (List A))
  array_of_len read (negsuc zero) = pure none
  array_of_len read (negsuc (suc n)) = fail ReadError.malformed
  array_of_len read (pos len) = do xs ← read_times len read; pure (some xs)

  unfoldable pub read_versioned_array : Reader A → Reader (Option (List A))
  read_versioned_array read = do len ← read_int32; array_of_len read len

  unfoldable pub write_versioned_array : (A → VersionedWriter) → Option (List A) → VersionedWriter
  write_versioned_array write none = plain (write_int32 (negsuc 0))
  write_versioned_array write (some xs) =
      with_length half32 (write_error WriteError.overflow) (length xs)
        λ len. plain (write_int32 len) then_write write_each write xs

  abbrev pub compact_array_of_len : Reader A → ℕ → Reader (Option (List A))
  compact_array_of_len read zero = pure none
  compact_array_of_len read (suc len) = do xs ← read_times len read; pure (some xs)

  unfoldable pub read_compact_versioned_array : Reader A → Reader (Option (List A))
  read_compact_versioned_array read = do len ← read_unsigned_varint; compact_array_of_len read len

  unfoldable pub write_compact_versioned_array :
      (A → VersionedWriter) → Option (List A) → VersionedWriter
  write_compact_versioned_array write none = plain (write_unsigned_varint 0)
  write_compact_versioned_array write (some xs) =
      if ltb (length xs + 1) u64_mod
      then plain (write_unsigned_varint (length xs + 1)) then_write write_each write xs
      else err (write_error WriteError.overflow)
