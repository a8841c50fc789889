-- ===== src/Protocol/Messages/Arrays/Laws.antt =====
-- Round trips of the versioned arrays of src/protocol/messages/mod.rs.
use rskafka.Prelude.{◌+◌, refl, arith, Option, none, some, List, length, All}
use rskafka.Prelude.Int.{pos, negsuc}
use rskafka.Protocol.Traits.{Reader, WriteError}
use rskafka.Protocol.Traits.Laws.{
  RoundTrips, RoundTrips-bind, RoundTrips-last, RoundTrips-end, read_times-RoundTrips,
}
use rskafka.Protocol.Primitives.Ints.{half32}
use rskafka.Protocol.Primitives.Ints.Laws.{int32-RoundTrips}
use rskafka.Protocol.Primitives.Varint.{u64_mod}
use rskafka.Protocol.Primitives.Varint.Laws.{unsigned_varint-RoundTrips}
use rskafka.Protocol.Primitives.Lengths.{if-RoundTrips, compact_prefix}
use rskafka.Protocol.Messages.Fields.{write_error, VersionedWriter, plain-RoundTrips}
use rskafka.Protocol.Messages.Arrays.{
  read_versioned_array, write_versioned_array, read_compact_versioned_array,
  write_compact_versioned_array,
}

module _ {A : Type 0} (read : Reader A) (write : A → VersionedWriter) where
  abbrev pub ElementsRoundTrip : Option (List A) → Type 0
  ElementsRoundTrip none = Unit
  ElementsRoundTrip (some xs) = All (λ a. RoundTrips read (write a) a) xs

  pub versioned_array-RoundTrips :
      (xs : Option (List A))
      → ElementsRoundTrip xs
      → RoundTrips (read_versioned_array read) (write_versioned_array write xs) xs
  unfolding read_versioned_array write_versioned_array
  versioned_array-RoundTrips none h =
      RoundTrips-end _ none (plain-RoundTrips _ (int32-RoundTrips (negsuc 0) (omega arith)))
        (λ rest. refl)
  versioned_array-RoundTrips (some xs) h =
      if-RoundTrips _ (length xs) half32 (write_error WriteError.overflow) _ (some xs) (λ fits.
        RoundTrips-bind _ (plain-RoundTrips _ (int32-RoundTrips (pos (length xs)) fits))
          (RoundTrips-last some (read_times-RoundTrips read write xs h)))

  pub compact_versioned_array-RoundTrips :
      (xs : Option (List A))
      → ElementsRoundTrip xs
      → RoundTrips (read_compact_versioned_array read) (write_compact_versioned_array write xs) xs
  unfolding read_compact_versioned_array write_compact_versioned_array
  compact_versioned_array-RoundTrips none h =
      RoundTrips-end _ none (plain-RoundTrips _ (unsigned_varint-RoundTrips 0 (omega arith)))
        (λ rest. refl)
  compact_versioned_array-RoundTrips (some xs) h =
      if-RoundTrips _ (length xs + 1) u64_mod (write_error WriteError.overflow) _ (some xs) (λ fits.
        RoundTrips-bind _ (plain-RoundTrips _ (compact_prefix (length xs) fits))
          (RoundTrips-last some (read_times-RoundTrips read write xs h)))

  -- Arrays of versioned objects that come back one by one come back as they were written, in either
  -- form: null and the empty array are told apart, and the order is kept.
  pub versioned_arrays_round_trip :
      (xs : Option (List A))
      → ElementsRoundTrip xs
      → RoundTrips (read_versioned_array read) (write_versioned_array write xs) xs
        × RoundTrips (read_compact_versioned_array read) (write_compact_versioned_array write xs) xs
  versioned_arrays_round_trip xs h =
      (versioned_array-RoundTrips xs h, compact_versioned_array-RoundTrips xs h)
