-- ===== src/Messenger/World/Deliveries.antt =====
-- What the callers of one messenger of src/messenger.rs can rely on.
use rskafka.Prelude.{◌+◌, ◌≤◌, ◌≡◌, refl, arith, Bool, false, All, subst}
use rskafka.Messenger.{MessengerState, request_map, poison_state, Ticket}
use rskafka.Messenger.World.{
  waiting, World, take_id, register, register_in, message_sent, cancel, send_failed, receive, Step,
  takes_id, gives_up, registers, sends, cancels, fails_to_send, finishes, receives, Reachable,
  start, step,
}
use rskafka.Messenger.World.Counts.{all_ids, entries, told}
use rskafka.Messenger.World.Invariant.{map_of, answers, Owed, IsOwn, IsSound}
use rskafka.Messenger.World.Steps.{
  Owed-le, take_id-IsSound, ends-IsSound, message_sent-IsSound, register_in-IsSound, cancel-IsSound,
  send_failed-IsSound, receive-IsSound, entries-IsPoison,
}

register_in-next :
    (s : MessengerState) (n : Ticket) (tagged : Bool) (w : World)
    → (register_in s n tagged w).next ≡ w.next
unfolding register_in
register_in-next (request_map m) n tagged w = refl
register_in-next (poison_state e) n tagged w = refl

-- Tickets are never taken back.
next-le : (v w : World) → Step v w → v.next ≤ w.next
unfolding take_id register message_sent cancel send_failed receive
next-le v w takes_id = omega arith
next-le v w (gives_up n e) = omega arith
next-le v w (registers n tagged e) = omega (arith, register_in-next v.state n tagged v)
next-le v w (sends n e) = omega arith
next-le v w (cancels n e) = omega arith
next-le v w (fails_to_send n x e) = omega arith
next-le v w (finishes n e) = omega arith
next-le v w (receives max stream e) = omega arith

Step-IsSound : (v w : World) → Step v w → v.next ≤ all_ids → IsSound v → IsSound w
unfolding register
Step-IsSound v w takes_id small h = take_id-IsSound v h
Step-IsSound v w (gives_up n e) small h = ends-IsSound v h n (λ q. cc (e, q))
Step-IsSound v w (registers n tagged e) small h =
    register_in-IsSound v h small v.state n tagged refl e
Step-IsSound v w (sends n e) small h = message_sent-IsSound v h n e
Step-IsSound v w (cancels n e) small h = cancel-IsSound v h small n e
Step-IsSound v w (fails_to_send n x e) small h = send_failed-IsSound v h small n x e
Step-IsSound v w (finishes n e) small h = ends-IsSound v h n (λ q. cc (e, q))
Step-IsSound v w (receives max stream e) small h = receive-IsSound v h small max stream

pub Reachable-IsSound : (w : World) → Reachable w → w.next ≤ all_ids → IsSound w
Reachable-IsSound w start small = record {
  taken = λ n le. refl;
  owed = λ n. omega arith;
  keyed = tt;
  own = tt;
  stops = λ q. cc;
}
Reachable-IsSound w (step {v} r s) small =
    let before : v.next ≤ all_ids = omega (arith, next-le v w s) in
    Step-IsSound v w s before (Reachable-IsSound v r before)

-- As long as at most 2 ^ 32 IDs were taken, a request that waits for its response either stands in
-- the map, once, or was sent one answer: its channel is not closed without an answer.
pub waiting_request_is_owed :
    (w : World) (n : Ticket)
    → Reachable w
    → w.next ≤ all_ids
    → w.phase n ≡ waiting
    → entries n (map_of w.state) + told n w.delivered ≡ 1
waiting_request_is_owed w n r small e =
    subst (λ p. Owed p (answers n w.state w.delivered)) e ((Reachable-IsSound w r small).owed n)

-- As long as at most 2 ^ 32 IDs were taken, no request is sent a second answer, whatever the broker
-- sends and however the steps of callers and worker interleave.
pub at_most_one_answer :
    (w : World) (n : Ticket) → Reachable w → w.next ≤ all_ids → told n w.delivered ≤ 1
at_most_one_answer w n r small =
    let h = Reachable-IsSound w r small in
    omega (arith, Owed-le (w.phase n) (answers n w.state w.delivered) (h.owed n))

-- As long as at most 2 ^ 32 IDs were taken, every response that a request was handed has the ID
-- that this request took.
pub responses_match_ids : (w : World) → Reachable w → w.next ≤ all_ids → All IsOwn w.delivered
responses_match_ids w r small = (Reachable-IsSound w r small).own

-- As long as at most 2 ^ 32 IDs were taken, nobody waits for a worker that has ended: each request
-- that waits was sent its answer by then.
pub ended_worker_owes_nothing :
    (w : World) (n : Ticket)
    → Reachable w
    → w.next ≤ all_ids
    → w.worker_runs ≡ false
    → w.phase n ≡ waiting
    → told n w.delivered ≡ 1
ended_worker_owes_nothing w n r small ended e =
    let h = Reachable-IsSound w r small in
    omega (arith, waiting_request_is_owed w n r small e, entries-IsPoison n w.state (h.stops ended))
