-- ===== src/Protocol/Primitives/Text/Total.antt =====
-- The strings of src/protocol/primitives.rs are read, or refused, whatever the bytes are.
use rskafka.Prelude.{ℕ, zero, suc, Bool-cases, inl, inr, List}
use rskafka.Prelude.Int.{ℤ, pos, negsuc}
use rskafka.Protocol.Traits.{ReadError, lift}
use rskafka.Protocol.Traits.Total.{
  NeverPanics, bind-NeverPanics, pure-NeverPanics, fail-NeverPanics,
}
use rskafka.Protocol.Primitives.Total.{int16-NeverPanics, read_vec-NeverPanics}
use rskafka.Protocol.Primitives.Lengths.{with_usize}
use rskafka.Protocol.Primitives.Varint.Overflow.{unsigned_varint-NeverPanics}
use rskafka.Protocol.Primitives.Text.{
  from_utf8, read_text, nullable_text, read_nullable_string, read_string, compact_text,
  read_compact_string, compact_nullable_text, read_compact_nullable_string,
}
use rskafka.Protocol.Primitives.Text.Utf8.{is_utf8}

utf8-NeverPanics : (buf : List ℕ) → NeverPanics (lift (from_utf8 buf))
unfolding from_utf8
utf8-NeverPanics buf = elim (Bool-cases (is_utf8 buf)) [
  | inl valid ↦ rw valid (pure-NeverPanics buf)
  | inr invalid ↦ rw invalid (record { on = λ s p. cc })
]

text-NeverPanics : (len : ℕ) → NeverPanics (read_text len)
unfolding read_text
text-NeverPanics len = bind-NeverPanics _ (read_vec-NeverPanics len) utf8-NeverPanics

some_text-NeverPanics : (len : ℕ) → NeverPanics (compact_nullable_text len)
unfolding compact_nullable_text
some_text-NeverPanics zero = pure-NeverPanics _
some_text-NeverPanics (suc len) =
    bind-NeverPanics _ (text-NeverPanics len) (λ s. pure-NeverPanics _)

pub nullable_string-NeverPanics : NeverPanics read_nullable_string
unfolding read_nullable_string nullable_text
nullable_string-NeverPanics = bind-NeverPanics _ int16-NeverPanics of_len
  where
    of_len : (len : ℤ) → NeverPanics (nullable_text len)
    of_len (negsuc zero) = pure-NeverPanics _
    of_len (negsuc (suc n)) = fail-NeverPanics _
    of_len (pos len) = bind-NeverPanics _ (text-NeverPanics len) (λ s. pure-NeverPanics _)

pub string-NeverPanics : NeverPanics read_string
unfolding read_string
string-NeverPanics = bind-NeverPanics _ int16-NeverPanics of_len
  where
    of_len : (len : ℤ) → NeverPanics (with_usize ReadError.malformed len read_text)
    of_len (negsuc n) = fail-NeverPanics _
    of_len (pos len) = text-NeverPanics len

pub compact_string-NeverPanics : NeverPanics read_compact_string
unfolding read_compact_string compact_text
compact_string-NeverPanics = bind-NeverPanics _ unsigned_varint-NeverPanics of_len
  where
    of_len : (len : ℕ) → NeverPanics (compact_text len)
    of_len zero = fail-NeverPanics _
    of_len (suc len) = text-NeverPanics len

pub compact_nullable_string-NeverPanics : NeverPanics read_compact_nullable_string
unfolding read_compact_nullable_string
compact_nullable_string-NeverPanics =
    bind-NeverPanics _ unsigned_varint-NeverPanics some_text-NeverPanics
