-- ===== src/Client/Retry.antt =====
-- What src/client/partition.rs and src/client/controller.rs share: the loop of `maybe_retry`, with what
-- each error asks for as a parameter, and the closure that the operations give to it.
pub mod Laws
use rskafka.Prelude.{ℕ, Bool, true, false, if◌then◌else◌, Option, none, some, List}
use rskafka.Prelude.Int.{ℤ}
use rskafka.Prelude.Result.{Result, ok, err, panic}
use rskafka.Throttle.{maybe_throttle}
use rskafka.Backoff.{
  BackoffError, ErrorOrThrottle, error, throttle, ControlFlow, break, continue, retry_with_backoff,
}
use rskafka.Messenger.{RequestError}
use rskafka.Client.Error.{Error, request, retry_failed}

-- What an error asks for: whether the operation is tried again, and whether the broker is invalidated
-- first.
pub record Reaction : Type 0 where
  pub retries : Bool
  pub invalidates : Bool

abbrev pub again : Reaction
again = record { retries = true; invalidates = false }

abbrev pub again_elsewhere : Reaction
again_elsewhere = record { retries = true; invalidates = true }

abbrev pub fatal : Reaction
fatal = record { retries = false; invalidates = false }

-- The operation that is tried, once for each round: it may return, be throttled, or fail, with the
-- generation of the broker that it used. It may also still wait.
pub data Tried (T : Type 0) : Type 0 where
  returned : T → Tried T
  throttled : ℕ → Tried T
  failed : Error → Option ℕ → Tried T
  crashed waiting : Tried T

module _ {S : Type 0} (invalidate : ℕ → S → S) where
  abbrev pub invalidate_if : Bool → Option ℕ → S → S
  invalidate_if true (some gen) s = invalidate gen s
  invalidate_if true none s = s
  invalidate_if false gen s = s

module _ {S T : Type 0} (invalidate : ℕ → S → S) (reaction : Error → Reaction) where
  -- The body of the loop.
  abbrev pub on_tried :
      Tried T × S → ControlFlow (Option (Result Error T)) (ErrorOrThrottle Error) × S
  on_tried (returned t, s) = (break (some (ok t)), s)
  on_tried (throttled ms, s) = (continue (throttle ms), s)
  on_tried (crashed, s) = (break (some panic), s)
  on_tried (waiting, s) = (break none, s)
  on_tried (failed e gen, s) = (
    if (reaction e).retries then continue (error e) else break (some (err e)),
    invalidate_if invalidate (reaction e).invalidates gen s,
  )

module _ {S T : Type 0} where
  abbrev pub unwrapped :
      Option (Result BackoffError (Option (Result Error T))) × S → Option (Result Error T) × S
  unwrapped (none, s) = (none, s)
  unwrapped (some (ok r), s) = (r, s)
  unwrapped (some (err e), s) = (some (err (retry_failed e)), s)
  unwrapped (some panic, s) = (some panic, s)

module _ {S R T : Type 0} (invalidate : ℕ → S → S) (is_last : R → Bool) (f : R → S → Tried T × S)
    (reaction : Error → Reaction) where
  unfoldable pub maybe_retry : List R → S → Option (Result Error T) × S
  maybe_retry rounds s =
      unwrapped (retry_with_backoff is_last (λ r s. on_tried invalidate reaction (f r s)) rounds s)

-- One round of a loop: what finding the broker meets, what a broker answers to the request, and whether
-- a failure exceeds the deadline.
pub record Attempt (Brokers Conn Req Resp : Type 0) : Type 0 where
  pub brokers : Brokers
  pub answers : Conn → Req → Result RequestError Resp
  pub is_last : Bool

abbrev pub processed : {T : Type 0} → ℕ → Result Error T → Tried T
processed gen (ok t) = returned t
processed gen (err e) = failed e (some gen)
processed gen panic = crashed

module _ {Resp T : Type 0} (throttle_time_ms : Resp → Option ℤ)
    (process : Resp → Result Error T) where
  abbrev pub answered : ℕ → Result RequestError Resp → Tried T
  answered gen (ok response) = elim (maybe_throttle (throttle_time_ms response)) [
    | some ms ↦ throttled ms
    | none ↦ processed gen (process response)
  ]
  answered gen (err e) = failed (request e) (some gen)
  answered gen panic = crashed

module _ {Brokers S Conn Req Resp T : Type 0}
    (get : Brokers → S → Option (Result Error (Conn × ℕ)) × S) (throttle_time_ms : Resp → Option ℤ)
    (process : Resp → Result Error T) (req : Req) where
  abbrev pub with_broker :
      Attempt Brokers Conn Req Resp → Option (Result Error (Conn × ℕ)) × S → Tried T × S
  with_broker a (none, s) = (waiting, s)
  with_broker a (some (ok (broker, gen)), s) =
      (answered throttle_time_ms process gen (a.answers broker req), s)
  with_broker a (some (err e), s) = (failed e none, s)
  with_broker a (some panic, s) = (crashed, s)

  -- The closure: a broker, its answer, and what it is taken for.
  unfoldable pub attempt : Attempt Brokers Conn Req Resp → S → Tried T × S
  attempt a s = with_broker a (get a.brokers s)
