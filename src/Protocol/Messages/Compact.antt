-- ===== src/Protocol/Messages/Compact.antt =====
-- Names and arrays of src/protocol/messages that later versions have in their compact form.
use rskafka.Prelude.{Bool, true, false, Option, none, some, List, []}
use rskafka.Protocol.Traits.{Reader, ◌>>=◌, pure}
use rskafka.Protocol.Primitives.Text.{
  read_string, write_string, read_compact_string, write_compact_string,
}
use rskafka.Protocol.Primitives.Text.Utf8.{Text}
use rskafka.Protocol.Messages.Fields.{VersionedWriter, plain, or_default}
use rskafka.Protocol.Messages.Arrays.{
  read_versioned_array, write_versioned_array, read_compact_versioned_array,
  write_compact_versioned_array,
}

-- `if v >= k { CompactString } else { String_ }`
abbrev pub read_name : Bool → Reader Text
read_name true = read_compact_string
read_name false = read_string

abbrev pub write_name : Bool → Text → VersionedWriter
write_name true name = plain (write_compact_string name)
write_name false name = plain (write_string name)

-- `if v >= k { read_compact_versioned_array … } else { read_versioned_array … }`, with its
-- `unwrap_or_default`
abbrev pub read_objects : {A : Type 0} → Bool → Reader A → Reader (List A)
read_objects true read = do xs ← read_compact_versioned_array read; pure (or_default [] xs)
read_objects false read = do xs ← read_versioned_array read; pure (or_default [] xs)

abbrev pub write_objects : {A : Type 0} → Bool → (A → VersionedWriter) → List A → VersionedWriter
write_objects true write xs = write_compact_versioned_array write (some xs)
write_objects false write xs = write_versioned_array write (some xs)

-- `.flatten()`
abbrev pub flatten : {A : Type 0} → Option (Option A) → Option A
flatten none = none
flatten (some o) = o
