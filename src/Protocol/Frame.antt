-- ===== src/Protocol/Frame.antt =====
-- src/protocol/frame.rs: messages on a byte stream, each behind its length as an INT32. The stream is
-- the bytes that will arrive until it ends; a read that fails at its end has taken them all.
pub mod Laws
pub mod Total
use rskafka.Prelude.{
  ℕ, zero, suc, ◌-◌, min, ◌==◌, leb, ltb, if◌then◌else◌, Bool, true, false, List, [], ◌∷◌, ◌++◌,
  length,
}
use rskafka.Prelude.Int.{ℤ, pos, negsuc}
use rskafka.Prelude.Result.{Result, ok, err, panic}
use rskafka.Protocol.Traits.{read_exact}
use rskafka.Protocol.Primitives.Ints.{half32, read_int32, to_be_bytes}

pub data ReadError : Type 0 where
  io : ReadError
  negative_message_size : ℤ → ReadError
  message_too_large : ℕ → ℕ → ReadError

-- What `read_message` comes back with. `crashed` is the failed `expect`, and `stuck` says that the
-- rounds ran out: neither is a value of the source, and Laws has when they cannot occur.
pub data Outcome : Type 0 where
  message : List ℕ → Outcome
  failed : ReadError → Outcome
  crashed stuck : Outcome

pub data Skipped : Type 0 where
  past : List ℕ → Skipped
  cut_off out_of_rounds : Skipped

-- `while to_read > 0`, which throws a message away in steps of at most `max_message_size`. Without
-- room for a step the loop of the source never ends; there the rounds run out.
pub skip : ℕ → ℕ → ℕ → List ℕ → Skipped
skip zero max_message_size to_read s = if to_read == 0 then past s else out_of_rounds
skip (suc rounds) max_message_size to_read s = elim (to_read == 0) [
  | true ↦ past s
  | false ↦
      let step = min max_message_size to_read in
      elim (read_exact step s) [
        | ok (buf, rest) ↦ skip rounds max_message_size (to_read - step) rest
        | err e ↦ cut_off
        | panic ↦ cut_off
      ]
]

-- After the length was read.
pub skip_message : ℕ → ℕ → List ℕ → Outcome × List ℕ
skip_message max_message_size len s = elim (skip len max_message_size len s) [
  | past rest ↦ (failed (message_too_large max_message_size len), rest)
  | cut_off ↦ (failed io, [])
  | out_of_rounds ↦ (stuck, s)
]

pub take_message : ℕ → List ℕ → Outcome × List ℕ
take_message len s = elim (read_exact len s) [
  | ok (buf, rest) ↦ (message buf, rest)
  | err e ↦ (failed io, [])
  | panic ↦ (crashed, s)
]

pub read_body : ℕ → ℤ → List ℕ → Outcome × List ℕ
read_body max_message_size (negsuc n) s = (failed (negative_message_size (negsuc n)), s)
read_body max_message_size (pos len) s =
    if ltb max_message_size len then skip_message max_message_size len s else take_message len s

unfoldable pub read_message : ℕ → List ℕ → Outcome × List ℕ
unfolding read_body skip_message take_message skip
read_message max_message_size s = elim (read_exact 4 s) [
  | ok (len_buf, rest) ↦ elim (read_int32 len_buf) [
    | ok (len, _) ↦ read_body max_message_size len rest
    | err e ↦ (crashed, rest)
    | panic ↦ (crashed, rest)
  ]
  | err e ↦ (failed io, [])
  | panic ↦ (crashed, s)
]

pub data WriteError : Type 0 where
  too_large : ℕ → WriteError

-- The bytes that are sent. A failure of the sink itself is not modelled.
unfoldable pub write_message : List ℕ → Result WriteError (List ℕ)
write_message msg =
    if ltb (length msg) half32
    then ok (to_be_bytes 4 half32 (pos (length msg)) ++ unless_empty msg)
    else err (too_large (length msg))
  where
    unless_empty : List ℕ → List ℕ
    unless_empty [] = []
    unless_empty (b ∷ bs) = b ∷ bs
