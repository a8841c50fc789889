-- ===== src/Protocol/Primitives/Collections/Laws.antt =====
-- Round trips of the tagged fields and arrays of src/protocol/primitives.rs.
use rskafka.Prelude.{◌+◌, ◌<◌, refl, arith, Option, none, some, List, [], ◌∷◌, length, All}
use rskafka.Prelude.Int.{pos, negsuc}
use rskafka.Protocol.Traits.{Reader, Writer, WriteError}
use rskafka.Protocol.Traits.Laws.{
  RoundTrips, RoundTrips-bind, RoundTrips-last, RoundTrips-end, read_times-RoundTrips,
}
use rskafka.Protocol.Primitives.Ints.{half32}
use rskafka.Protocol.Primitives.Ints.Laws.{int32-RoundTrips}
use rskafka.Protocol.Primitives.Varint.{u64_mod}
use rskafka.Protocol.Primitives.Varint.Laws.{unsigned_varint-RoundTrips}
use rskafka.Protocol.Primitives.Lengths.{if-RoundTrips, read_vec-RoundTrips, compact_prefix}
use rskafka.Protocol.Primitives.Collections.{
  TaggedField, TaggedFields, read_tagged_field, read_tagged_fields, write_tagged_field,
  write_tagged_fields, read_array, write_array, read_compact_array, write_compact_array,
}

-- Tags are `u64`.
abbrev pub IsTagged : TaggedFields → Type 0
IsTagged = All (λ f. f.0 < u64_mod)

tagged_field-RoundTrips :
    (f : TaggedField) → f.0 < u64_mod → RoundTrips read_tagged_field (write_tagged_field f) f
unfolding read_tagged_field write_tagged_field
tagged_field-RoundTrips (tag, bytes) h = RoundTrips-bind _ (unsigned_varint-RoundTrips tag h) (
    if-RoundTrips _ (length bytes) u64_mod WriteError.overflow _ (tag, bytes)
      (λ fits.
        RoundTrips-bind _ (unsigned_varint-RoundTrips (length bytes) fits)
          (RoundTrips-last (λ bs. (tag, bs)) (read_vec-RoundTrips bytes))))

each_tagged :
    (fs : TaggedFields)
    → IsTagged fs
    → All (λ f. RoundTrips read_tagged_field (write_tagged_field f) f) fs
each_tagged [] h = tt
each_tagged (f ∷ fs) h = (tagged_field-RoundTrips f h.0, each_tagged fs h.1)

pub tagged_fields-RoundTrips :
    (fs : TaggedFields) → IsTagged fs → RoundTrips read_tagged_fields (write_tagged_fields fs) fs
unfolding read_tagged_fields write_tagged_fields
tagged_fields-RoundTrips fs h =
    if-RoundTrips _ (length fs) u64_mod WriteError.overflow _ fs (λ fits.
      RoundTrips-bind _ (unsigned_varint-RoundTrips (length fs) fits)
        (read_times-RoundTrips read_tagged_field write_tagged_field fs (each_tagged fs h)))

module _ {A : Type 0} (read : Reader A) (write : A → Writer) where
  abbrev pub EachRoundTrips : Option (List A) → Type 0
  EachRoundTrips none = Unit
  EachRoundTrips (some xs) = All (λ a. RoundTrips read (write a) a) xs

  pub array-RoundTrips :
      (xs : Option (List A))
      → EachRoundTrips xs
      → RoundTrips (read_array read) (write_array write xs) xs
  unfolding read_array write_array
  array-RoundTrips none h =
      RoundTrips-end _ none (int32-RoundTrips (negsuc 0) (omega arith)) (λ rest. refl)
  array-RoundTrips (some xs) h =
      if-RoundTrips _ (length xs) half32 WriteError.overflow _ (some xs) (λ fits.
        RoundTrips-bind _ (int32-RoundTrips (pos (length xs)) fits)
          (RoundTrips-last some (read_times-RoundTrips read write xs h)))

  pub compact_array-RoundTrips :
      (xs : Option (List A))
      → EachRoundTrips xs
      → RoundTrips (read_compact_array read) (write_compact_array write xs) xs
  unfolding read_compact_array write_compact_array
  compact_array-RoundTrips none h =
      RoundTrips-end _ none (unsigned_varint-RoundTrips 0 (omega arith)) (λ rest. refl)
  compact_array-RoundTrips (some xs) h =
      if-RoundTrips _ (length xs + 1) u64_mod WriteError.overflow _ (some xs) (λ fits.
        RoundTrips-bind _ (compact_prefix (length xs) fits)
          (RoundTrips-last some (read_times-RoundTrips read write xs h)))
