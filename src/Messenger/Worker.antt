-- ===== src/Messenger/Worker.antt =====
-- The background task that `Messenger::new` in src/messenger.rs spawns: it takes one message after
-- the other off the stream and hands each to the request that waits for it.
pub mod Laws
use rskafka.Prelude.{ℕ, Bool, true, false, Option, none, some, List, [], ◌∷◌}
use rskafka.Prelude.Int.{ℤ, pos}
use rskafka.Prelude.Result.{Result, ok, err, panic}
use rskafka.Protocol.Frame
use rskafka.Protocol.Frame.{Outcome, message, failed, crashed, stuck}
use rskafka.Protocol.Primitives.Collections.{read_tagged_fields}
use rskafka.Protocol.Messages.Header.{ResponseHeader, read_response_header}
use rskafka.Messenger.{
  RequestError, read_error, read_framed_message_error, Response, MessengerState, Ticket,
  request_map, poison_state, Delivery, lookup, remove, poison,
}

-- What one turn of the loop comes to: the state, what is sent on the channels, and whether there is
-- another turn (`continue`, or the end of the body) or none (`return`).
pub record Turn : Type 0 where
  pub state : MessengerState
  pub sent : List Delivery
  pub goes_on : Bool

-- The answer for a request that was found, from the rest of the message, and whether the task lives.
unfoldable pub answer : Ticket → Bool → ResponseHeader → List ℕ → List ℕ → List Delivery × Bool
answer n false header msg rest =
    ((n, ok (record { header = header; message = msg; rest = rest })) ∷ [], true)
answer n true header msg rest = elim (read_tagged_fields rest) [
  | ok (fields, left) ↦
      let full : ResponseHeader = record header { tagged_fields = some fields } in
      ((n, ok (record { header = full; message = msg; rest = left })) ∷ [], true)
  | err e ↦ ((n, err (read_error e)) ∷ [], true)
  | panic ↦ ([], false)
]

-- What is done with a message whose header was read.
unfoldable pub dispatch : ResponseHeader → List ℕ → List ℕ → MessengerState → Turn
dispatch header msg rest (poison_state e) = record {
  state = poison_state e;
  sent = [];
  goes_on = false;
}
dispatch header msg rest (request_map m) = elim (lookup header.correlation_id m) [
  | none ↦ record { state = request_map m; sent = []; goes_on = true }
  | some r ↦
      let (sent, lives) = answer r.channel r.use_tagged_fields_in_response header msg rest in
      record { state = request_map (remove header.correlation_id m); sent = sent; goes_on = lives }
]

unfoldable pub on_message : List ℕ → MessengerState → Turn
unfolding dispatch answer
on_message msg state = elim (read_response_header (pos 0) msg) [
  | err e ↦ record { state = state; sent = []; goes_on = true }
  | panic ↦ record { state = state; sent = []; goes_on = false }
  | ok (header, rest) ↦ dispatch header msg rest state
]

unfoldable pub poison_turn : RequestError → MessengerState → Turn
poison_turn e state =
    let (next, sent, _) = poison e state in record { state = next; sent = sent; goes_on = false }

-- One turn of the loop on what `read_message` returned. A read that panics ends the task, and one
-- that never returns leaves it where it is.
unfoldable pub worker_turn : Outcome → MessengerState → Turn
unfolding poison_turn
worker_turn (message msg) state = on_message msg state
worker_turn (failed e) state = poison_turn (read_framed_message_error e) state
worker_turn crashed state = record { state = state; sent = []; goes_on = false }
worker_turn stuck state = record { state = state; sent = []; goes_on = true }
