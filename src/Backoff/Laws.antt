-- ===== src/Backoff/Laws.antt =====
-- What the loop of src/backoff.rs returns.
use rskafka.Prelude.{◌++◌, ap, ◌∙◌, ◌≡◌, refl, Bool, true, false, Option, none, some, List, [], ◌∷◌}
use mathlib.Core.List.{Memᴰ}
use rskafka.Prelude.Result.{Result, ok, err, panic}
use rskafka.Backoff.{
  BackoffError, deadline_exceeded, ErrorOrThrottle, error, throttle, ControlFlow, break, continue,
  turn, retry_with_backoff,
}

-- A result that a round ended the loop with has `P`; the loop itself does not panic.
abbrev pub Outcome : {B : Type 0} → (B → Type 0) → Option (Result BackoffError B) → Type 0
Outcome P none = Unit
Outcome P (some (ok b)) = P b
Outcome P (some (err e)) = Unit
Outcome P (some panic) = ⊥

abbrev pub Breaks : {B C : Type 0} → (B → Type 0) → ControlFlow B C → Type 0
Breaks P (break b) = P b
Breaks P (continue c) = Unit

module _ {S B E : Type 0} (P : B → Type 0) where
  turn-Outcome :
      (last : Bool) (s : S) (again : Option (Result BackoffError B) × S)
      (flow : ControlFlow B (ErrorOrThrottle E))
      → Breaks P flow
      → Outcome P again.0
      → Outcome P (turn last s again flow).0
  turn-Outcome last s again (break b) h k = h
  turn-Outcome last s again (continue (throttle ms)) h k = k
  turn-Outcome true s again (continue (error e)) h k = tt
  turn-Outcome false s again (continue (error e)) h k = k

module _ {R S B E : Type 0} (is_last : R → Bool)
    (do_stuff : R → S → ControlFlow B (ErrorOrThrottle E) × S) (P : B → Type 0) where
  pub retry-Outcome :
      (rounds : List R) (s : S)
      → ((r : R) → Memᴰ r rounds → (s : S) → Breaks P (do_stuff r s).0)
      → Outcome P (retry_with_backoff is_last do_stuff rounds s).0
  unfolding retry_with_backoff
  retry-Outcome [] s each = tt
  retry-Outcome (r ∷ rs) s each =
      turn-Outcome P (is_last r) (do_stuff r s).1
        (retry_with_backoff is_last do_stuff rs (do_stuff r s).1) (do_stuff r s).0
        (each r (Memᴰ.head refl) s)
        (retry-Outcome rs (do_stuff r s).1 (λ r m. each r (Memᴰ.tail m)))

module _ {R S B E : Type 0} (is_last : R → Bool)
    (do_stuff : R → S → ControlFlow B (ErrorOrThrottle E) × S) (Q : S → Type 0)
    (each : (r : R) (s : S) → Q s → Q (do_stuff r s).1) where
  turn_keeps :
      (last : Bool) (s : S) (again : Option (Result BackoffError B) × S)
      (flow : ControlFlow B (ErrorOrThrottle E))
      → Q s
      → Q again.1
      → Q (turn last s again flow).1
  turn_keeps last s again (break b) h k = h
  turn_keeps last s again (continue (throttle ms)) h k = k
  turn_keeps true s again (continue (error e)) h k = h
  turn_keeps false s again (continue (error e)) h k = k

  -- What every round keeps of the state, the loop does.
  pub retry_keeps :
      (rounds : List R) (s : S) → Q s → Q (retry_with_backoff is_last do_stuff rounds s).1
  unfolding retry_with_backoff
  retry_keeps [] s h = h
  retry_keeps (r ∷ rs) s h =
      turn_keeps (is_last r) (do_stuff r s).1
        (retry_with_backoff is_last do_stuff rs (do_stuff r s).1) (do_stuff r s).0 (each r s h)
        (retry_keeps rs (do_stuff r s).1 (each r s h))

module _ {R S B E : Type 0} (is_last : R → Bool)
    (do_stuff : R → S → ControlFlow B (ErrorOrThrottle E) × S) where
  -- A round after which the loop goes on: it was throttled, or it failed before the deadline.
  abbrev pub GoesOn : Bool → ControlFlow B (ErrorOrThrottle E) → Type 0
  GoesOn last (break b) = ⊥
  GoesOn last (continue (throttle ms)) = Unit
  GoesOn last (continue (error e)) = last ≡ false

  -- Rounds that lead from a state to another, all of which the loop goes on after.
  abbrev pub Leads : List R → S → S → Type 0
  Leads [] s t = s ≡ t
  Leads (r ∷ rs) s t = GoesOn (is_last r) (do_stuff r s).0 × Leads rs (do_stuff r s).1 t

  turn-GoesOn :
      (last : Bool) (s : S) (again : Option (Result BackoffError B) × S)
      (flow : ControlFlow B (ErrorOrThrottle E))
      → GoesOn last flow
      → turn last s again flow ≡ again
  turn-GoesOn last s again (break b) h = absurd h
  turn-GoesOn last s again (continue (throttle ms)) h = refl
  turn-GoesOn last s again (continue (error e)) h = rw h refl

  retry-append :
      (before after : List R) (s t : S)
      → Leads before s t
      → retry_with_backoff is_last do_stuff (before ++ after) s
        ≡ retry_with_backoff is_last do_stuff after t
  unfolding retry_with_backoff
  retry-append [] after s t h = ap (retry_with_backoff is_last do_stuff after) h
  retry-append (r ∷ rs) after s t (h, k) =
      turn-GoesOn (is_last r) (do_stuff r s).1 _ (do_stuff r s).0 h
      ∙ retry-append rs after (do_stuff r s).1 t k

  turn_ends :
      (last : Bool) (s : S) (again : Option (Result BackoffError B) × S) (b : B)
      (flow : ControlFlow B (ErrorOrThrottle E))
      → flow ≡ break b
      → turn last s again flow ≡ (some (ok b), s)
  turn_ends last s again b flow h = rw h refl

  turn_gives_up :
      (s : S) (again : Option (Result BackoffError B) × S) (e : E)
      (flow : ControlFlow B (ErrorOrThrottle E))
      → flow ≡ continue (error e)
      → turn true s again flow ≡ (some (err deadline_exceeded), s)
  turn_gives_up s again e flow h = rw h refl

  -- After any number of rounds that were throttled or failed before the deadline, the loop returns what
  -- the next round returns, without another one.
  pub retry_returns :
      (before after : List R) (r : R) (s t : S) (b : B)
      → Leads before s t
      → (do_stuff r t).0 ≡ break b
      → retry_with_backoff is_last do_stuff (before ++ r ∷ after) s
        ≡ (some (ok b), (do_stuff r t).1)
  unfolding retry_with_backoff
  retry_returns before after r s t b h e =
      retry-append before (r ∷ after) s t h
      ∙ turn_ends (is_last r) (do_stuff r t).1 _ b (do_stuff r t).0 e

  -- A round that fails at the deadline ends the loop.
  pub retry_gives_up :
      (before after : List R) (r : R) (s t : S) (e : E)
      → Leads before s t
      → is_last r ≡ true
      → (do_stuff r t).0 ≡ continue (error e)
      → retry_with_backoff is_last do_stuff (before ++ r ∷ after) s
        ≡ (some (err deadline_exceeded), (do_stuff r t).1)
  unfolding retry_with_backoff
  retry_gives_up before after r s t e h last fails =
      retry-append before (r ∷ after) s t h
      ∙ rw last (turn_gives_up (do_stuff r t).1 _ e (do_stuff r t).0 fails)
