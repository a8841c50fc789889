-- ===== src/Messenger/World.antt =====
-- The life of one `Messenger` of src/messenger.rs as steps that its callers and its worker take in any
-- order. Each access to the shared state, which a lock protects, is one step.
pub mod Counts
pub mod Invariant
pub mod Turns
pub mod Steps
pub mod Deliveries
use rskafka.Prelude.{ℕ, zero, suc, ◌==◌, ◌≡◌, Bool, true, false, if◌then◌else◌, List, [], ◌++◌}
use rskafka.Prelude.Int.{ℤ}
use rskafka.Protocol.Frame.{Outcome, read_message}
use rskafka.Messenger.{
  RequestError, ActiveRequest, MessengerState, request_map, poison_state, Ticket, Delivery, insert,
  remove, poison, correlation_id,
}
use rskafka.Messenger.Worker.{Turn, worker_turn}

-- Where the call of `request` with a ticket is: before it took its ID, before it looked at the
-- state, in `send_message`, in `rx.await`, or over (it returned, or its future was dropped).
pub data Phase : Type 0 where
  unborn preparing sending waiting over : Phase

pub record World : Type 0 where
  pub next : Ticket
  pub phase : Ticket → Phase
  pub state : MessengerState
  pub worker_runs : Bool
  pub delivered : List Delivery

abbrev pub initial : World
initial = record {
  next = 0;
  phase = λ n. unborn;
  state = request_map [];
  worker_runs = true;
  delivered = [];
}

abbrev pub at : (Ticket → Phase) → Ticket → Phase → Ticket → Phase
at f n p k = if k == n then p else f k

-- `self.correlation_id.fetch_add(1)`
unfoldable pub take_id : World → World
take_id w = record w { next = suc w.next; phase = at w.phase w.next preparing }

abbrev pub ends : Ticket → World → World
ends n w = record w { phase = at w.phase n over }

-- `map.insert`, or the end of the request on a poisoned connection.
unfoldable pub register_in : MessengerState → Ticket → Bool → World → World
register_in (request_map m) n tagged w =
    let active : ActiveRequest = record { channel = n; use_tagged_fields_in_response = tagged } in
    record w {
      phase = at w.phase n sending;
      state = request_map (insert (correlation_id n) active m);
    }
register_in (poison_state e) n tagged w = ends n w

unfoldable pub register : Ticket → Bool → World → World
unfolding register_in
register n tagged w = register_in w.state n tagged w

-- `cleanup_on_cancel.message_sent()`
unfoldable pub message_sent : Ticket → World → World
message_sent n w = record w { phase = at w.phase n waiting }

-- `CleanupRequestStateOnCancel::drop` before the message was sent.
unfoldable pub clean_up : Ticket → MessengerState → MessengerState
clean_up n (request_map m) = request_map (remove (correlation_id n) m)
clean_up n (poison_state e) = poison_state e

-- The future is dropped while the message is being sent.
unfoldable pub cancel : Ticket → World → World
cancel n w = record w { phase = at w.phase n over; state = clean_up n w.state }

-- `send_message` failed: the connection is poisoned, and the request's guard is dropped.
unfoldable pub send_failed : Ticket → RequestError → World → World
send_failed n e w =
    let (next, sent, _) = poison e w.state in
    record w { phase = at w.phase n over; state = clean_up n next; delivered = sent ++ w.delivered }

-- The worker's turn.
unfoldable pub receive : Outcome → World → World
receive outcome w =
    let turn = worker_turn outcome w.state in
    record w {
      state = turn.state;
      worker_runs = turn.goes_on;
      delivered = turn.sent ++ w.delivered;
    }

-- The steps, with the phase that each starts from. A future can be dropped in any phase.
pub data Step (w : World) : World → Type 0 where
  takes_id : Step w (take_id w)
  gives_up : (n : Ticket) → w.phase n ≡ preparing → Step w (ends n w)
  registers : (n : Ticket) (tagged : Bool) → w.phase n ≡ preparing → Step w (register n tagged w)
  sends : (n : Ticket) → w.phase n ≡ sending → Step w (message_sent n w)
  cancels : (n : Ticket) → w.phase n ≡ sending → Step w (cancel n w)
  fails_to_send : (n : Ticket) (e : RequestError) → w.phase n ≡ sending → Step w (send_failed n e w)
  finishes : (n : Ticket) → w.phase n ≡ waiting → Step w (ends n w)
  receives :
      (max_message_size : ℕ) (stream : List ℕ)
      → w.worker_runs ≡ true
      → Step w (receive (read_message max_message_size stream).0 w)

pub data Reachable : World → Type 0 where
  start : Reachable initial
  step : {v w : World} → Reachable v → Step v w → Reachable w
