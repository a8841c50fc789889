-- ===== src/Protocol/Primitives/Codecs.antt =====
-- The primitive types of src/protocol/primitives.rs as codecs: which values can be written, and that
-- they are read back from what was written, with whatever follows left in the source.
use rskafka.Prelude.{ℕ, ◌+◌, ◌<◌, Option, none, some, List, [], ◌∷◌, length, All}
use rskafka.Prelude.Int.{ℤ, pos, negsuc}
use rskafka.Protocol.Traits.{WriteError}
use rskafka.Protocol.Traits.Succeeds.{
  Succeeds, Succeeds-ok, Succeeds-then, Succeeds-if, Succeeds-each,
}
use rskafka.Protocol.Primitives.Ints.{
  half16, half32, write_int8, write_int16, write_int32, write_int64,
}
use rskafka.Protocol.Primitives.Varint.{u64_mod, write_unsigned_varint}
use rskafka.Protocol.Primitives.Varint.Laws.{groups, write_unsigned_varint-groups}
use rskafka.Protocol.Primitives.Text.{write_string, write_nullable_string, write_compact_string}
use rskafka.Protocol.Primitives.Text.Utf8.{Text}
use rskafka.Protocol.Primitives.ByteStrings.{write_nullable_bytes}
use rskafka.Protocol.Primitives.Collections.{TaggedFields, write_tagged_field, write_tagged_fields}
use rskafka.Protocol.Primitives.Collections.Laws.{IsTagged}

pub int8-Succeeds : (z : ℤ) → Succeeds (write_int8 z)
unfolding write_int8
int8-Succeeds z = Succeeds-ok _

pub int16-Succeeds : (z : ℤ) → Succeeds (write_int16 z)
unfolding write_int16
int16-Succeeds z = Succeeds-ok _

pub int32-Succeeds : (z : ℤ) → Succeeds (write_int32 z)
unfolding write_int32
int32-Succeeds z = Succeeds-ok _

pub int64-Succeeds : (z : ℤ) → Succeeds (write_int64 z)
unfolding write_int64
int64-Succeeds z = Succeeds-ok _

pub unsigned_varint-Succeeds : (v : ℕ) → v < u64_mod → Succeeds (write_unsigned_varint v)
unsigned_varint-Succeeds v h = record {
  bytes = groups 9 v;
  written = write_unsigned_varint-groups v h;
}

-- A string of fewer than 2 ^ 15 bytes.
pub string-Succeeds : (s : Text) → length s < half16 → Succeeds (write_string s)
unfolding write_string
string-Succeeds s h =
    Succeeds-if _ _ _ WriteError.overflow h
      (Succeeds-then _ _ (int16-Succeeds (pos (length s))) (Succeeds-ok s))

abbrev pub FitsBelow {ℓ} : {A : Type ℓ} → ℕ → Option (List A) → Type 0
FitsBelow bound none = Unit
FitsBelow bound (some xs) = length xs < bound

pub nullable_string-Succeeds :
    (s : Option Text) → FitsBelow half16 s → Succeeds (write_nullable_string s)
unfolding write_nullable_string
nullable_string-Succeeds none h = int16-Succeeds (negsuc 0)
nullable_string-Succeeds (some s) h =
    Succeeds-if _ _ _ WriteError.malformed h
      (Succeeds-then _ _ (int16-Succeeds (pos (length s))) (Succeeds-ok s))

pub compact_string-Succeeds :
    (s : Text) → length s + 1 < u64_mod → Succeeds (write_compact_string s)
unfolding write_compact_string
compact_string-Succeeds s h =
    Succeeds-if _ _ _ WriteError.overflow h
      (Succeeds-then _ _ (unsigned_varint-Succeeds _ h) (Succeeds-ok s))

pub nullable_bytes-Succeeds :
    (bs : Option (List ℕ)) → FitsBelow half32 bs → Succeeds (write_nullable_bytes bs)
unfolding write_nullable_bytes
nullable_bytes-Succeeds none h = int32-Succeeds (negsuc 0)
nullable_bytes-Succeeds (some bs) h =
    Succeeds-if _ _ _ WriteError.malformed h
      (Succeeds-then _ _ (int32-Succeeds (pos (length bs))) (Succeeds-ok bs))

abbrev pub FitTagged : TaggedFields → Type 0
FitTagged = All (λ f. (f.0 < u64_mod) × (length f.1 < u64_mod))

pub FitTagged-IsTagged : (fs : TaggedFields) → FitTagged fs → IsTagged fs
FitTagged-IsTagged [] h = tt
FitTagged-IsTagged (f ∷ fs) h = (h.0.0, FitTagged-IsTagged fs h.1)

each_tagged : (fs : TaggedFields) → FitTagged fs → All (λ f. Succeeds (write_tagged_field f)) fs
unfolding write_tagged_field
each_tagged [] h = tt
each_tagged ((tag, bytes) ∷ fs) h = (
  Succeeds-then _ _ (unsigned_varint-Succeeds tag h.0.0) (
      Succeeds-if _ _ _ WriteError.overflow h.0.1
        (Succeeds-then _ _ (unsigned_varint-Succeeds _ h.0.1) (Succeeds-ok bytes))),
  each_tagged fs h.1,
)

pub tagged_fields-Succeeds :
    (fs : TaggedFields) → length fs < u64_mod → FitTagged fs → Succeeds (write_tagged_fields fs)
unfolding write_tagged_fields
tagged_fields-Succeeds fs n h = Succeeds-if _ _ _ WriteError.overflow n (
    Succeeds-then _ _ (unsigned_varint-Succeeds _ n)
      (Succeeds-each write_tagged_field fs (each_tagged fs h)))
