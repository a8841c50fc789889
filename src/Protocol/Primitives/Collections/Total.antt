-- ===== src/Protocol/Primitives/Collections/Total.antt =====
-- The arrays of src/protocol/primitives.rs are read, or refused, whatever the bytes are.
use rskafka.Prelude.{zero, suc}
use rskafka.Prelude.Int.{ℤ, pos, negsuc}
use rskafka.Protocol.Traits.{Reader}
use rskafka.Protocol.Traits.Total.{
  NeverPanics, bind-NeverPanics, pure-NeverPanics, fail-NeverPanics, read_times-NeverPanics,
}
use rskafka.Protocol.Primitives.Total.{int32-NeverPanics}
use rskafka.Protocol.Primitives.Collections.{array_body, read_array}

module _ {A : Type 0} {read : Reader A} (h : NeverPanics read) where
  body-NeverPanics : (len : ℤ) → NeverPanics (array_body read len)
  unfolding array_body
  body-NeverPanics (negsuc zero) = pure-NeverPanics _
  body-NeverPanics (negsuc (suc n)) = fail-NeverPanics _
  body-NeverPanics (pos len) =
      bind-NeverPanics _ (read_times-NeverPanics len h) (λ xs. pure-NeverPanics _)

  pub array-NeverPanics : NeverPanics (read_array read)
  unfolding read_array
  array-NeverPanics = bind-NeverPanics _ int32-NeverPanics body-NeverPanics
