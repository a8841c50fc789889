-- ===== src/Client/Retry/Laws.antt =====
-- What the loop of `maybe_retry` returns, and which broker is left after a round.
use rskafka.Prelude.{
  ℕ, ◌≡◌, refl, Bool, true, false, inl, inr, if◌then◌else◌, Option, Option-cases, none, some, List,
}
use mathlib.Core.List.{Memᴰ}
use rskafka.Prelude.Int.{ℤ}
use rskafka.Prelude.Result.{Result, ok, err, panic}
use rskafka.Throttle.{maybe_throttle}
use rskafka.Backoff.{
  BackoffError, ErrorOrThrottle, error, ControlFlow, break, continue, retry_with_backoff,
}
use rskafka.Backoff.Laws.{Outcome, Breaks, retry-Outcome}
use rskafka.Messenger.{RequestError}
use rskafka.Client.Error.{Error, retry_failed}
use rskafka.Client.Retry.{
  Reaction, Tried, returned, throttled, failed, crashed, waiting, on_tried, unwrapped, maybe_retry,
  Attempt, processed, answered, with_broker, attempt,
}

-- What an operation can end with: a value with `P`, or an error that may be reported.
module _ {T : Type 0} (MayReport : Error → Type 0) (P : T → Type 0) where
  abbrev pub Ends : Option (Result Error T) → Type 0
  Ends none = Unit
  Ends (some (ok t)) = P t
  Ends (some (err e)) = MayReport e
  Ends (some panic) = Unit

module _ {T : Type 0} (P : T → Type 0) where
  abbrev pub Returns : Tried T → Type 0
  Returns (returned t) = P t
  Returns (throttled ms) = Unit
  Returns (failed e gen) = Unit
  Returns crashed = Unit
  Returns waiting = Unit

module _ {S R T : Type 0} (invalidate : ℕ → S → S) (is_last : R → Bool) (f : R → S → Tried T × S)
    (reaction : Error → Reaction) (MayReport : Error → Type 0)
    (gives_up : (e : BackoffError) → MayReport (retry_failed e))
    (fatal_only : (e : Error) → (reaction e).retries ≡ false → MayReport e) (P : T → Type 0) where
  reported-Breaks :
      (e : Error) (b : Bool)
      → (reaction e).retries ≡ b
      → Breaks {C = ErrorOrThrottle Error}
          (Ends MayReport P)
          (if b then continue (error e) else break (some (err e)))
  reported-Breaks e true h = tt
  reported-Breaks e false h = fatal_only e h

  on_tried-Breaks :
      (t : Tried T) (s : S)
      → Returns P t
      → Breaks (Ends MayReport P) (on_tried invalidate reaction (t, s)).0
  on_tried-Breaks (returned t) s h = h
  on_tried-Breaks (throttled ms) s h = tt
  on_tried-Breaks (failed e gen) s h = reported-Breaks e (reaction e).retries refl
  on_tried-Breaks crashed s h = tt
  on_tried-Breaks waiting s h = tt

  unwrapped-Ends :
      (r : Option (Result BackoffError (Option (Result Error T)))) (s : S)
      → Outcome (Ends MayReport P) r
      → Ends MayReport P (unwrapped (r, s)).0
  unwrapped-Ends none s h = tt
  unwrapped-Ends (some (ok r)) s h = h
  unwrapped-Ends (some (err e)) s h = gives_up e
  unwrapped-Ends (some panic) s h = absurd h

  pub maybe_retry-Ends :
      (rounds : List R) (s : S)
      → ((r : R) → Memᴰ r rounds → (s : S) → Returns P (f r s).0)
      → Ends MayReport P (maybe_retry invalidate is_last f reaction rounds s).0
  unfolding maybe_retry
  maybe_retry-Ends rounds s each =
      let body : R → S → ControlFlow (Option (Result Error T)) (ErrorOrThrottle Error) × S =
        λ r s. on_tried invalidate reaction (f r s) in
      unwrapped-Ends (retry_with_backoff is_last body rounds s).0
        (retry_with_backoff is_last body rounds s).1
        (retry-Outcome is_last body (Ends MayReport P) rounds s
          (λ r m s. on_tried-Breaks (f r s).0 (f r s).1 (each r m s)))

module _ {Resp T : Type 0} (throttle_time_ms : Resp → Option ℤ) (process : Resp → Result Error T)
    (P : T → Type 0) where
  processed-Returns :
      (gen : ℕ) (p : Result Error T) → ((t : T) → p ≡ ok t → P t) → Returns P (processed gen p)
  processed-Returns gen (ok t) each = each t refl
  processed-Returns gen (err e) each = tt
  processed-Returns gen panic each = tt

  answered-Returns :
      (gen : ℕ) (a : Result RequestError Resp)
      → ((r : Resp) (t : T) → a ≡ ok r → process r ≡ ok t → P t)
      → Returns P (answered throttle_time_ms process gen a)
  answered-Returns gen (ok r) each = elim (Option-cases (maybe_throttle (throttle_time_ms r))) [
    | inl e ↦ rw (e, answered) (processed-Returns gen (process r) (λ t h. each r t refl h))
    | inr (ms, e) ↦ rw (e, answered) tt
  ]
  answered-Returns gen (err e) each = tt
  answered-Returns gen panic each = tt

-- What a broker answered to the request in a round.
abbrev pub IsAnswer :
    {Brokers Conn Req Resp : Type 0} → Req → Resp → Attempt Brokers Conn Req Resp → Type 0
IsAnswer {Conn = Conn} req r a = (broker : Conn) × (a.answers broker req ≡ ok r)

module _ {Brokers S Conn Req Resp T : Type 0}
    (get : Brokers → S → Option (Result Error (Conn × ℕ)) × S) (throttle_time_ms : Resp → Option ℤ)
    (process : Resp → Result Error T) (req : Req) (P : T → Type 0)
    (a : Attempt Brokers Conn Req Resp)
    (each : (r : Resp) (t : T) → IsAnswer req r a → process r ≡ ok t → P t) where
  with_broker-Returns :
      (g : Option (Result Error (Conn × ℕ)) × S)
      → Returns P (with_broker get throttle_time_ms process req a g).0
  with_broker-Returns (none, s) = tt
  with_broker-Returns (some (ok (broker, gen)), s) =
      answered-Returns throttle_time_ms process P gen (a.answers broker req)
        (λ r t h k. each r t (broker, h) k)
  with_broker-Returns (some (err e), s) = tt
  with_broker-Returns (some panic, s) = tt

  pub attempt-Returns : (s : S) → Returns P (attempt get throttle_time_ms process req a s).0
  unfolding attempt
  attempt-Returns s = with_broker-Returns (get a.brokers s)
