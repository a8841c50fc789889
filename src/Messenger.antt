-- ===== src/Messenger.antt =====
-- src/messenger.rs: the state that one connection's callers and its background worker share. A
-- sender of a oneshot channel is the ticket of the request that waits at its other end: how many
-- requests took an ID before it.
pub mod Versions
pub mod Worker
pub mod Requests
pub mod World
pub mod Sync
use rskafka.Prelude.{ℕ, ◌*◌, ◌%◌, Bool, not, Option, none, some, List, [], ◌∷◌, map, if◌then◌else◌}
use rskafka.Prelude.Int.{ℤ, eqb_ℤ, from_word}
use rskafka.Prelude.Result.{Result, ok, err}
use rskafka.Protocol.Traits.{ReadError, IoError}
use rskafka.Protocol.Primitives.Ints.{half32}
use rskafka.Protocol.Frame
use rskafka.Protocol.ApiKey.{ApiKey}
use rskafka.Protocol.ApiVersion.{ApiVersion}
use rskafka.Protocol.Messages.Fields.{WriteVersionedError}
use rskafka.Protocol.Messages.Header.{ResponseHeader}

pub data RequestError : Type 0 where
  no_version_match : ApiKey → RequestError
  write_error : WriteVersionedError → RequestError
  write_message_error : Frame.WriteError → RequestError
  read_error read_versioned_error : ReadError → RequestError
  io : IoError → RequestError
  too_much_data : ℕ → ℕ → ApiKey → ApiVersion → RequestError
  read_framed_message_error : Frame.ReadError → RequestError
  poisoned : RequestError → RequestError

-- `data` is a cursor: the whole message, and what is left of it after the header.
pub record Response : Type 0 where
  pub header : ResponseHeader
  pub message : List ℕ
  pub rest : List ℕ

abbrev pub Ticket : Type 0
Ticket = ℕ

pub record ActiveRequest : Type 0 where
  pub channel : Ticket
  pub use_tagged_fields_in_response : Bool

-- The `HashMap` of active requests, with at most one entry for a key.
abbrev pub RequestMap : Type 0
RequestMap = List (ℤ × ActiveRequest)

pub data MessengerState : Type 0 where
  request_map : RequestMap → MessengerState
  poison_state : RequestError → MessengerState

-- What is sent on a oneshot channel.
abbrev pub Delivery : Type 0
Delivery = Ticket × Result RequestError Response

unfoldable pub lookup : ℤ → RequestMap → Option ActiveRequest
lookup id [] = none
lookup id ((k, r) ∷ m) = if eqb_ℤ k id then some r else lookup id m

unfoldable pub remove : ℤ → RequestMap → RequestMap
remove id [] = []
remove id ((k, r) ∷ m) = let rest = remove id m in if eqb_ℤ k id then rest else (k, r) ∷ rest

unfoldable pub insert : ℤ → ActiveRequest → RequestMap → RequestMap
insert id r m = (id, r) ∷ remove id m

-- `map.drain()` in `poison`, with what each active request is told.
unfoldable pub drain : RequestError → RequestMap → List Delivery
drain e [] = []
drain e ((k, r) ∷ m) = (r.channel, err (poisoned e)) ∷ drain e m

-- The new state, what is sent, and the error that the callers get from now on.
unfoldable pub poison :
    RequestError → MessengerState → MessengerState × List Delivery × RequestError
poison e (request_map m) = (poison_state e, drain e m, e)
poison e (poison_state old) = (poison_state old, [], old)

-- The ID that the `AtomicI32` hands out with a ticket: it starts at 0 and wraps around.
unfoldable pub correlation_id : Ticket → ℤ
correlation_id n = from_word half32 (n % (2 * half32))
