-- ===== src/Backoff.antt =====
-- `Backoff::retry_with_backoff` of src/backoff.rs. The waiting times, which are random floats, and the
-- clock are outside of the model: a round of the loop comes with what `next` answers after it.
pub mod Laws
use rskafka.Prelude.{ℕ, Bool, true, false, Option, none, some, List, [], ◌∷◌}
use rskafka.Prelude.Result.{Result, ok, err}

pub data BackoffError : Type 0 where
  deadline_exceeded : BackoffError

pub data ErrorOrThrottle (E : Type 0) : Type 0 where
  error : E → ErrorOrThrottle E
  throttle : ℕ → ErrorOrThrottle E

-- `std::ops::ControlFlow`
pub data ControlFlow (B C : Type 0) : Type 0 where
  break : B → ControlFlow B C
  continue : C → ControlFlow B C

module _ {S B E : Type 0} where
  -- What a round makes of the loop: its end, or the rounds after it.
  abbrev pub turn :
      Bool
      → S
      → Option (Result BackoffError B) × S
      → ControlFlow B (ErrorOrThrottle E)
      → Option (Result BackoffError B) × S
  turn is_last s again (break b) = (some (ok b), s)
  turn is_last s again (continue (throttle ms)) = again
  turn true s again (continue (error e)) = (some (err deadline_exceeded), s)
  turn false s again (continue (error e)) = again

module _ {R S B E : Type 0} (is_last : R → Bool)
    (do_stuff : R → S → ControlFlow B (ErrorOrThrottle E) × S) where
  -- The loop, on the rounds that are to come: without a result when they are used up. A round that is
  -- the last exceeds the deadline when it fails.
  unfoldable pub retry_with_backoff : List R → S → Option (Result BackoffError B) × S
  retry_with_backoff [] s = (none, s)
  retry_with_backoff (r ∷ rs) s =
      let s' = (do_stuff r s).1 in turn (is_last r) s' (retry_with_backoff rs s') (do_stuff r s).0
