-- ===== src/Protocol/Messages/Total.antt =====
-- The idioms of src/protocol/messages never panic when their elements do not, and no assertion on the
-- version fails.
pub mod Topics
pub mod Partitions
pub mod Responses
use rskafka.Prelude.{ℕ, zero, suc, ◌≡◌, Bool, true, false, List, Option}
use rskafka.Prelude.Int.{ℤ, pos, negsuc}
use rskafka.Protocol.Traits.{Reader}
use rskafka.Protocol.Traits.Total.{
  NeverPanics, bind-NeverPanics, pure-NeverPanics, fail-NeverPanics, read_times-NeverPanics,
}
use rskafka.Protocol.Primitives.Total.{int32-NeverPanics}
use rskafka.Protocol.Primitives.Text.Total.{string-NeverPanics, compact_string-NeverPanics}
use rskafka.Protocol.Primitives.Varint.Overflow.{unsigned_varint-NeverPanics}
use rskafka.Protocol.Messages.Fields.{read_if, read_asserting}
use rskafka.Protocol.Messages.Arrays.{
  array_of_len, read_versioned_array, compact_array_of_len, read_compact_versioned_array,
}
use rskafka.Protocol.Messages.Compact.{read_name, read_objects}

module _ {A : Type 0} {read : Reader A} (h : NeverPanics read) where
  pub if-NeverPanics : (b : Bool) → NeverPanics (read_if b read)
  if-NeverPanics true = bind-NeverPanics _ h (λ a. pure-NeverPanics _)
  if-NeverPanics false = pure-NeverPanics _

  pub asserting-NeverPanics : (b : Bool) → b ≡ true → NeverPanics (read_asserting b read)
  asserting-NeverPanics b e = rw e h

  array_of_len-NeverPanics : (len : ℤ) → NeverPanics (array_of_len read len)
  array_of_len-NeverPanics (negsuc zero) = pure-NeverPanics _
  array_of_len-NeverPanics (negsuc (suc n)) = fail-NeverPanics _
  array_of_len-NeverPanics (pos len) =
      bind-NeverPanics _ (read_times-NeverPanics len h) (λ xs. pure-NeverPanics _)

  pub versioned_array-NeverPanics : NeverPanics (read_versioned_array read)
  unfolding read_versioned_array
  versioned_array-NeverPanics = bind-NeverPanics _ int32-NeverPanics array_of_len-NeverPanics

  compact_array_of_len-NeverPanics : (len : ℕ) → NeverPanics (compact_array_of_len read len)
  compact_array_of_len-NeverPanics zero = pure-NeverPanics _
  compact_array_of_len-NeverPanics (suc len) =
      bind-NeverPanics _ (read_times-NeverPanics len h) (λ xs. pure-NeverPanics _)

  pub compact_versioned_array-NeverPanics : NeverPanics (read_compact_versioned_array read)
  unfolding read_compact_versioned_array
  compact_versioned_array-NeverPanics =
      bind-NeverPanics _ unsigned_varint-NeverPanics compact_array_of_len-NeverPanics

  pub objects-NeverPanics : (b : Bool) → NeverPanics (read_objects b read)
  objects-NeverPanics true =
      bind-NeverPanics _ compact_versioned_array-NeverPanics (λ xs. pure-NeverPanics _)
  objects-NeverPanics false =
      bind-NeverPanics _ versioned_array-NeverPanics (λ xs. pure-NeverPanics _)

pub name-NeverPanics : (b : Bool) → NeverPanics (read_name b)
name-NeverPanics true = compact_string-NeverPanics
name-NeverPanics false = string-NeverPanics
