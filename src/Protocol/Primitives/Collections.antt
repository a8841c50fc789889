-- ===== src/Protocol/Primitives/Collections.antt =====
-- src/protocol/primitives.rs: tagged fields and arrays. Their readers collect the elements in a
-- `VecBuilder`; that this is `read_times` is a theorem of Protocol/VecBuilder/Elements.antt.
pub mod Laws
pub mod Total
use rskafka.Prelude.{ℕ, zero, suc, ◌+◌, Option, none, some, List, length}
use rskafka.Prelude.Int.{ℤ, pos, negsuc}
use rskafka.Protocol.Traits.{
  Reader, Writer, Writes, ReadError, WriteError, ◌>>=◌, pure, fail, read_times, write_all,
  ◌then_write◌, write_each,
}
use rskafka.Protocol.VecBuilder.{read_vec}
use rskafka.Protocol.Primitives.Ints.{half32, read_int32, write_int32}
use rskafka.Protocol.Primitives.Varint.{read_unsigned_varint, write_unsigned_varint}
use rskafka.Protocol.Primitives.Lengths.{with_length, with_u64, with_usize}

abbrev pub TaggedField : Type 0
TaggedField = ℕ × List ℕ

abbrev pub TaggedFields : Type 0
TaggedFields = List TaggedField

unfoldable pub read_tagged_field : Reader TaggedField
read_tagged_field = do
  tag ← read_unsigned_varint
  data_len ← read_unsigned_varint
  bytes ← read_vec data_len
  pure (tag, bytes)

unfoldable pub read_tagged_fields : Reader TaggedFields
read_tagged_fields = do len ← read_unsigned_varint; read_times len read_tagged_field

unfoldable pub write_tagged_field : TaggedField → Writer
write_tagged_field (tag, bytes) =
    write_unsigned_varint tag
    then_write with_u64 (length bytes)
        λ data_len. write_unsigned_varint data_len then_write write_all bytes

unfoldable pub write_tagged_fields : TaggedFields → Writer
write_tagged_fields fields =
    with_u64 (length fields)
      λ len. write_unsigned_varint len then_write write_each write_tagged_field fields

module _ {A : Type 0} where
  array_body : Reader A → ℤ → Reader (Option (List A))
  array_body read (negsuc zero) = pure none
  array_body read (negsuc (suc n)) = fail ReadError.overflow
  array_body read (pos len) = do xs ← read_times len read; pure (some xs)

  -- `Array<T>`, with the reader of `T`.
  unfoldable pub read_array : Reader A → Reader (Option (List A))
  unfolding array_body
  read_array read = do len ← read_int32; array_body read len

  -- `ArrayRef<T>`, which `Array<T>` writes through.
  unfoldable pub write_array : (A → Writer) → Option (List A) → Writer
  write_array write none = write_int32 (negsuc 0)
  write_array write (some xs) =
      with_length half32 WriteError.overflow (length xs)
        λ len. write_int32 len then_write write_each write xs

  compact_array_body : Reader A → ℕ → Reader (Option (List A))
  compact_array_body read zero = pure none
  compact_array_body read (suc len) = do xs ← read_times len read; pure (some xs)

  unfoldable pub read_compact_array : Reader A → Reader (Option (List A))
  unfolding compact_array_body
  read_compact_array read = do len ← read_unsigned_varint; compact_array_body read len

  -- `CompactArrayRef<T>`, which `CompactArray<T>` writes through.
  unfoldable pub write_compact_array : (A → Writer) → Option (List A) → Writer
  write_compact_array write none = write_unsigned_varint 0
  write_compact_array write (some xs) =
      with_u64 (length xs + 1) λ len. write_unsigned_varint len then_write write_each write xs
