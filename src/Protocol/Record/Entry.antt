-- ===== src/Protocol/Record/Entry.antt =====
-- Records, their headers and control records of src/protocol/record.rs.
pub mod Laws
use rskafka.Prelude.{
  ℕ, zero, suc, ◌-◌, ◌==◌, if◌then◌else◌, Option, none, some, List, [], ◌∷◌, length, take, drop,
}
use rskafka.Prelude.Int.{ℤ, pos, negsuc}
use rskafka.Prelude.Result.{Result, ok, err, panic}
use rskafka.Protocol.Traits.{
  Reader, Writer, Writes, ReadError, WriteError, ◌>>=◌, pure, fail, read_times, write_all,
  ◌then_write◌, write_each,
}
use rskafka.Protocol.VecBuilder.{read_vec}
use rskafka.Protocol.Primitives.Ints.{half32, read_int8, write_int8, read_int16, write_int16}
use rskafka.Protocol.Primitives.Zigzag.{
  Zigzag, read_varint, write_varint, read_varlong, write_varlong,
}
use rskafka.Protocol.Primitives.Lengths.{with_length, with_usize}
use rskafka.Protocol.Primitives.Text.{read_text}
use rskafka.Protocol.Record.{RecordHeader, Record, ControlBatchRecord, abort, commit}

unfoldable pub within :
    {A : Type 0} → ℕ → ℕ → List ℕ → Result ReadError (A × List ℕ) → Result ReadError (A × List ℕ)
within limit seen s (err e) = err e
within limit seen s panic = panic
within limit seen s (ok (a, left)) =
    if limit - (seen - length left) == 0 then ok (a, drop limit s) else err ReadError.malformed

-- `reader.take(limit)`, and at the end `if reader.limit() != 0 { return Err(Malformed) }`. What is
-- read counts against the limit, whether or not the source has that many bytes.
unfoldable pub read_within : {A : Type 0} → ℕ → Reader A → Reader A
unfolding within
read_within limit read s = within limit (length (take limit s)) s (read (take limit s))

-- Writing to a buffer first.
abbrev pub with_buffer : {E : Type 0} → Writes E → (List ℕ → Writes E) → Writes E
with_buffer (ok bs) k = k bs
with_buffer (err e) k = err e
with_buffer panic k = panic

module _ (z : Zigzag) where
  -- `Varint(l).write(writer)?` after `i32::try_from(len)`.
  abbrev pub write_len : ℕ → (ℤ → Writer) → Writer
  write_len len k = with_length half32 WriteError.malformed len k

  abbrev pub sized : List ℕ → Writer
  sized bs = write_len (length bs) λ l. write_varint z l then_write write_all bs

  unfoldable pub read_record_header : Reader RecordHeader
  read_record_header = do
    len ← read_varint z
    key ← with_usize ReadError.malformed len read_text
    len ← read_varint z
    value ← with_usize ReadError.malformed len read_vec
    pure (record { key = key; value = value })

  unfoldable pub write_record_header : RecordHeader → Writer
  write_record_header h = sized h.key then_write sized h.value

  -- `if len == -1 { None } else { .. }`
  abbrev pub optional_bytes : ℤ → Reader (Option (List ℕ))
  optional_bytes (negsuc zero) = pure none
  optional_bytes (negsuc (suc n)) = fail ReadError.malformed
  optional_bytes (pos len) = do bs ← read_vec len; pure (some bs)

  abbrev pub write_optional : Option (List ℕ) → Writer
  write_optional none = write_varint z (negsuc 0)
  write_optional (some bs) = sized bs

  -- Behind the length.
  unfoldable pub read_record_fields : Reader Record
  read_record_fields = do
    attributes ← read_int8
    timestamp_delta ← read_varlong z
    offset_delta ← read_varint z
    len ← read_varint z
    key ← optional_bytes len
    len ← read_varint z
    value ← optional_bytes len
    n_headers ← read_varint z
    headers ← with_usize ReadError.malformed n_headers λ n. read_times n read_record_header
    pure (record {
      timestamp_delta = timestamp_delta;
      offset_delta = offset_delta;
      key = key;
      value = value;
      headers = headers;
    })

  unfoldable pub read_record : Reader Record
  read_record = do
    len ← read_varint z
    with_usize ReadError.malformed len λ n. read_within n read_record_fields

  unfoldable pub write_record_fields : Record → Writer
  write_record_fields r =
      write_int8 (pos 0)
      then_write write_varlong z r.timestamp_delta
      then_write write_varint z r.offset_delta
      then_write write_optional r.key
      then_write write_optional r.value
      then_write write_len (length r.headers)
          λ l. write_varint z l then_write write_each write_record_header r.headers

  unfoldable pub write_record : Record → Writer
  write_record r = with_buffer (write_record_fields r) sized

unfoldable pub control_type : ℤ → Reader ControlBatchRecord
control_type (pos zero) = pure abort
control_type (pos (suc zero)) = pure commit
control_type (pos (suc (suc n))) = fail ReadError.malformed
control_type (negsuc n) = fail ReadError.malformed

unfoldable pub control_of_version : ℤ → Reader ControlBatchRecord
control_of_version (pos zero) = do t ← read_int16; control_type t
control_of_version (pos (suc n)) = fail ReadError.malformed
control_of_version (negsuc n) = fail ReadError.malformed

unfoldable pub read_control_record : Reader ControlBatchRecord
unfolding control_of_version control_type
read_control_record = do version ← read_int16; control_of_version version

unfoldable pub write_control_record : ControlBatchRecord → Writer
write_control_record abort = write_int16 (pos 0) then_write write_int16 (pos 0)
write_control_record commit = write_int16 (pos 0) then_write write_int16 (pos 1)
