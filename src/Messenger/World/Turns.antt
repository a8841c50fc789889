-- ===== src/Messenger/World/Turns.antt =====
-- One turn of the worker of src/messenger.rs, and `poison`: what they do to the requests in the map.
use rskafka.Prelude.{
  ℕ, ◌+◌, ◌≤◌, ◌≡◌, refl, arith, Bool, true, false, inl, inr, Option-cases, List, [], ◌∷◌, All,
}
use rskafka.Prelude.Int.{pos}
use rskafka.Prelude.Result.{err, Result-cases}
use rskafka.Prelude.{◌≢◌}
use rskafka.Protocol.Traits.{IoError}
use rskafka.Protocol.Traits.Total.{NeverPanics, bind-NeverPanics, pure-NeverPanics}
use rskafka.Protocol.Primitives.Collections.{read_tagged_fields}
use rskafka.Protocol.Primitives.Total.{tagged_fields-NeverPanics, int32-NeverPanics}
use rskafka.Protocol.Frame.{Outcome, message, failed, crashed, stuck}
use rskafka.Protocol.Messages.Header.{ResponseHeader, read_response_header}
use rskafka.Messenger.{
  RequestError, MessengerState, request_map, poison_state, RequestMap, Ticket, Delivery, lookup,
  drain, poison, correlation_id,
}
use rskafka.Messenger.Worker.{Turn, answer, dispatch, on_message, poison_turn, worker_turn}
use rskafka.Messenger.World.Counts.{
  all_ids, entries, told, told-drain, Keyed, remove-Keyed, entries-remove, lookup-IsEntry,
}
use rskafka.Messenger.World.Invariant.{map_of, IsOwn, IsPoison}

abbrev pub AtMostOne : RequestMap → Type 0
AtMostOne m = (k : Ticket) → entries k m ≤ 1

-- What was sent takes its requests out of the map.
pub record Settles (next : Ticket) (before after : MessengerState) (sent : List Delivery)
    : Type 0 where
  pub same : (k : Ticket) → entries k (map_of after) + told k sent ≡ entries k (map_of before)
  pub keyed : Keyed next (map_of after)
  pub own : All IsOwn sent

nothing-Settles : (next : Ticket) (s : MessengerState) → Keyed next (map_of s) → Settles next s s []
nothing-Settles next s h = record { same = λ k. omega arith; keyed = h; own = tt }

drain-IsOwn : (e : RequestError) (m : RequestMap) → All IsOwn (drain e m)
unfolding drain
drain-IsOwn e [] = tt
drain-IsOwn e ((k, r) ∷ m) = (tt, drain-IsOwn e m)

pub poison-Settles :
    (next : Ticket) (e : RequestError) (s : MessengerState)
    → Keyed next (map_of s)
    → Settles next s (poison e s).0 (poison e s).1
unfolding poison
poison-Settles next e (request_map m) h = record {
  same = λ k. omega (arith, told-drain k e m);
  keyed = tt;
  own = drain-IsOwn e m;
}
poison-Settles next e (poison_state old) h = nothing-Settles next (poison_state old) h

pub poison-IsPoison : (e : RequestError) (s : MessengerState) → IsPoison (poison e s).0
unfolding poison
poison-IsPoison e (request_map m) = tt
poison-IsPoison e (poison_state old) = tt

-- A found request is sent one answer, its own, and the task lives on.
record Answers (n : Ticket) (out : List Delivery × Bool) : Type 0 where
  pub once : (k : Ticket) → told k out.0 ≡ told k ((n, err (RequestError.io IoError.other_io)) ∷ [])
  pub own : All IsOwn out.0
  pub lives : out.1 ≡ true

answer-Answers :
    (n : Ticket) (tagged : Bool) (header : ResponseHeader) (msg rest : List ℕ)
    → header.correlation_id ≡ correlation_id n
    → Answers n (answer n tagged header msg rest)
unfolding answer
answer-Answers n false header msg rest h = record { once = λ k. refl; own = (h, tt); lives = refl }
answer-Answers n true header msg rest h = elim (Result-cases (read_tagged_fields rest)) [
  | inl ((fields, left), e) ↦
      rw (e, answer) (record { once = λ k. refl; own = (h, tt); lives = refl })
  | inr (inl (x, e)) ↦ rw (e, answer) (record { once = λ k. refl; own = (tt, tt); lives = refl })
  | inr (inr e) ↦ absurd (tagged_fields-NeverPanics.on rest e)
]

pub record TurnSettles (next : Ticket) (before : MessengerState) (turn : Turn) : Type 0 where
  pub settles : Settles next before turn.state turn.sent
  pub stops : turn.goes_on ≡ false → IsPoison turn.state

dispatch-TurnSettles :
    (next : Ticket) (header : ResponseHeader) (msg rest : List ℕ) (s : MessengerState)
    → next ≤ all_ids
    → AtMostOne (map_of s)
    → Keyed next (map_of s)
    → TurnSettles next s (dispatch header msg rest s)
unfolding dispatch
dispatch-TurnSettles next header msg rest (poison_state e) small one h = record {
  settles = nothing-Settles next (poison_state e) h;
  stops = λ q. tt;
}
dispatch-TurnSettles next header msg rest (request_map m) small one h =
    elim (Option-cases (lookup header.correlation_id m)) [
      | inl e ↦
          rw (e, dispatch)
            (record { settles = nothing-Settles next (request_map m) h; stops = λ q. cc })
      | inr (r, e) ↦
          let (id, born, present) = lookup-IsEntry header.correlation_id next m r h e in
          let a = answer-Answers r.channel r.use_tagged_fields_in_response header msg rest id in
          rw (e, dispatch)
            (record {
              settles = record {
                same = λ k. ground (
                  arith,
                  entries-remove r.channel k next m small born h,
                  a.once k,
                  one k,
                  present,
                );
                keyed = remove-Keyed header.correlation_id next m h;
                own = a.own;
              };
              stops = λ q. cc (a.lives, q);
            })
    ]

response_header-NeverPanics : NeverPanics (read_response_header (pos 0))
unfolding read_response_header
response_header-NeverPanics =
    bind-NeverPanics _ int32-NeverPanics
      λ id. bind-NeverPanics _ (pure-NeverPanics _) λ fields. pure-NeverPanics _

header-TurnSettles :
    (next : Ticket) (msg : List ℕ) (s : MessengerState)
    → next ≤ all_ids
    → AtMostOne (map_of s)
    → Keyed next (map_of s)
    → TurnSettles next s (on_message msg s)
unfolding on_message
header-TurnSettles next msg s small one h = elim (Result-cases (read_response_header (pos 0) msg)) [
  | inl ((header, rest), e) ↦
      rw (e, on_message) (dispatch-TurnSettles next header msg rest s small one h)
  | inr (inl (x, e)) ↦
      rw (e, on_message) (record { settles = nothing-Settles next s h; stops = λ q. cc })
  | inr (inr e) ↦ absurd (response_header-NeverPanics.on msg e)
]

pub worker_turn-TurnSettles :
    (next : Ticket) (outcome : Outcome) (s : MessengerState)
    → outcome ≢ crashed
    → next ≤ all_ids
    → AtMostOne (map_of s)
    → Keyed next (map_of s)
    → TurnSettles next s (worker_turn outcome s)
unfolding worker_turn poison_turn
worker_turn-TurnSettles next (message msg) s c small one h =
    header-TurnSettles next msg s small one h
worker_turn-TurnSettles next (failed e) s c small one h = record {
  settles = poison-Settles next _ s h;
  stops = λ q. poison-IsPoison _ s;
}
worker_turn-TurnSettles next crashed s c small one h = absurd (c refl)
worker_turn-TurnSettles next stuck s c small one h = record {
  settles = nothing-Settles next s h;
  stops = λ q. cc;
}
