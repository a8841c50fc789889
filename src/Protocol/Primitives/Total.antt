-- ===== src/Protocol/Primitives/Total.antt =====
-- Readers of src/protocol/primitives.rs that return on every input, with a value or an error.
use rskafka.Prelude.{ℕ, sym, ◌∙◌}
use rskafka.Protocol.Traits.Total.{
  NeverPanics, bind-NeverPanics, pure-NeverPanics, read_exact-NeverPanics, read_times-NeverPanics,
}
use rskafka.Protocol.VecBuilder.{read_vec}
use rskafka.Protocol.VecBuilder.Refinement.{read_vec-read_exact}
use rskafka.Protocol.Primitives.Ints.{
  half8, half16, half32, half64, read_int, read_int8, read_int16, read_int32, read_int64,
  read_boolean,
}
use rskafka.Protocol.Primitives.Varint.Overflow.{unsigned_varint-NeverPanics}
use rskafka.Protocol.Primitives.Collections.{read_tagged_field, read_tagged_fields}

int-NeverPanics : (k half : ℕ) → NeverPanics (read_int k half)
unfolding read_int
int-NeverPanics k half = bind-NeverPanics _ (read_exact-NeverPanics k) (λ bs. pure-NeverPanics _)

pub int8-NeverPanics : NeverPanics read_int8
unfolding read_int8
int8-NeverPanics = int-NeverPanics 1 half8

pub int16-NeverPanics : NeverPanics read_int16
unfolding read_int16
int16-NeverPanics = int-NeverPanics 2 half16

pub int32-NeverPanics : NeverPanics read_int32
unfolding read_int32
int32-NeverPanics = int-NeverPanics 4 half32

pub int64-NeverPanics : NeverPanics read_int64
unfolding read_int64
int64-NeverPanics = int-NeverPanics 8 half64

pub boolean-NeverPanics : NeverPanics read_boolean
unfolding read_boolean
boolean-NeverPanics = bind-NeverPanics _ (read_exact-NeverPanics 1) (λ bs. pure-NeverPanics _)

pub read_vec-NeverPanics : (n : ℕ) → NeverPanics (read_vec n)
read_vec-NeverPanics n = record {
  on = λ s p. (read_exact-NeverPanics n).on s (sym (read_vec-read_exact n s) ∙ p);
}

tagged_field-NeverPanics : NeverPanics read_tagged_field
unfolding read_tagged_field
tagged_field-NeverPanics = bind-NeverPanics _ unsigned_varint-NeverPanics λ tag.
    bind-NeverPanics _ unsigned_varint-NeverPanics
      λ len. bind-NeverPanics _ (read_vec-NeverPanics len) λ bytes. pure-NeverPanics _

pub tagged_fields-NeverPanics : NeverPanics read_tagged_fields
unfolding read_tagged_fields
tagged_fields-NeverPanics =
    bind-NeverPanics _ unsigned_varint-NeverPanics
      λ len. read_times-NeverPanics len tagged_field-NeverPanics
