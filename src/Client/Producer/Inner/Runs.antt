-- ===== src/Client/Producer/Inner/Runs.antt =====
-- Every run of the producer of src/client/producer.rs keeps it sound.
use rskafka.Prelude.{
  ℕ, zero, suc, ◌≤◌, ◌<◌, ◌≡◌, refl, arith, ◌==◌, Bool, All, length, is_some, true, false,
  Bool-cases, inl, inr, ◌⊎◌, if◌then◌else◌, Option, none, some, List, [], ◌∷◌, get_elem?,
}
use rskafka.Prelude.Int.{ℤ}
use rskafka.Client.Error as Client
use rskafka.Client.Producer.Aggregator.{Aggregator}
use rskafka.Client.Producer.Broadcast.{
  value, dropped, peek, broadcast_open, drop_broadcast_open, closed-peek,
}
use rskafka.Client.Producer.Batch.{ResultHandle}
use rskafka.Prelude.Result.{ok}
use rskafka.Client.Producer.Inner.{
  FlushTask, Producer, remove_at, new, flush_batch, flush, write_result, finish, lose, fire,
  state_of, Event, produces, lingered, flushes, answers, loses, step, then_run, run,
}
use rskafka.Client.Producer.Inner.Laws.{
  claims, is_among, is_among-remove_at, AreWaited, ArePlaced, IsSound, Kept, KeptState,
  flush_batch-Kept,
}
use rskafka.Client.Producer.Inner.Steps.{flush-Kept, try_push-Kept, settled-IsSound, task_is_open}

module _ {A Input Tag Deagg AggError Time : Type 0}
    (agg : Aggregator A Input Tag Deagg AggError Time) where
  new-IsSound : (a : A) → IsSound (new agg a)
  new-IsSound a = record {
    claimed = λ id. ground arith;
    lingering = λ e. cc;
    waited = tt;
    placed = tt;
  }

  state_of-Kept :
      {X : Type 0} (o : Option (X × Producer A Tag Deagg AggError Time))
      → Kept o
      → KeptState (state_of agg o)
  state_of-Kept none h = h
  state_of-Kept (some (x, p)) h = h

  -- A task that lingers takes its token with it.
  fire-Kept :
      (i : ℕ) (p : Producer A Tag Deagg AggError Time) (o : Option ℕ)
      → get_elem? p.lingers i ≡ o
      → IsSound p
      → Kept (fire agg i p o)
  unfolding flush
  fire-Kept i p none e h = h
  fire-Kept i p (some token) e h = go (token == p.flush_clock) refl
    where
      go :
          (b : Bool)
          → token == p.flush_clock ≡ b
          → Kept (
              if b
              then flush_batch agg (record p { lingers = remove_at i p.lingers })
              else some (ok tt, record p { lingers = remove_at i p.lingers }))
      go true same =
          flush_batch-Kept agg (record p { lingers = remove_at i p.lingers }) h.claimed h.placed
      go false other = record {
        claimed = h.claimed;
        lingering = λ w. is_among-remove_at p.flush_clock i token p.lingers e other (h.lingering w);
        waited = h.waited;
        placed = h.placed;
      }

  finish-Kept :
      (i : ℕ) (r : Client.Error ⊎ List ℤ) (p : Producer A Tag Deagg AggError Time)
      (o : Option (FlushTask Deagg Time))
      → get_elem? p.tasks i ≡ o
      → IsSound p
      → KeptState (finish agg i r p o)
  finish-Kept i r p none e h = h
  finish-Kept i r p (some t) e h =
      rw
        (broadcast_open p.slots t.results (write_result agg t.status_deagg r)
          (task_is_open agg i p t e h))
        (settled-IsSound agg i p t (value (write_result agg t.status_deagg r)) e h)

  lose-Kept :
      (i : ℕ) (p : Producer A Tag Deagg AggError Time) (o : Option (FlushTask Deagg Time))
      → get_elem? p.tasks i ≡ o
      → IsSound p
      → KeptState (lose agg i p o)
  lose-Kept i p none e h = h
  lose-Kept i p (some t) e h =
      rw (drop_broadcast_open p.slots t.results (task_is_open agg i p t e h))
        (settled-IsSound agg i p t dropped e h)

  step-Kept :
      (e : Event Input) (p : Producer A Tag Deagg AggError Time)
      → IsSound p
      → KeptState (step agg e p)
  unfolding step
  step-Kept (produces input) p h = state_of-Kept _ (try_push-Kept agg input p h)
  step-Kept (lingered i) p h = state_of-Kept _ (fire-Kept i p _ refl h)
  step-Kept flushes p h = state_of-Kept _ (flush-Kept agg none p h)
  step-Kept (answers i r) p h = finish-Kept i r p _ refl h
  step-Kept (loses i) p h = lose-Kept i p _ refl h

  then_run-Kept :
      (f : Producer A Tag Deagg AggError Time → Option (Producer A Tag Deagg AggError Time))
      → ((p : Producer A Tag Deagg AggError Time) → IsSound p → KeptState (f p))
      → (o : Option (Producer A Tag Deagg AggError Time)) → KeptState o
      → KeptState (then_run agg f o)
  then_run-Kept f keeps none k = k
  then_run-Kept f keeps (some q) k = keeps q k

  run-Kept :
      (es : List (Event Input)) (p : Producer A Tag Deagg AggError Time)
      → IsSound p
      → KeptState (run agg es p)
  unfolding run
  run-Kept [] p h = h
  run-Kept (e ∷ es) p h = then_run-Kept (run agg es) (run-Kept es) _ (step-Kept e p h)

  -- The result of a caller is there, or a task sends its batch, or its batch is the one that is
  -- collected and a task lingers that will flush it.
  abbrev pub IsServed : Producer A Tag Deagg AggError Time → ResultHandle Tag → Type 0
  IsServed p h =
      is_some (peek p.slots h.receiver) ≡ true
      ⊎ (1 ≤ claims h.receiver p.tasks)
      ⊎ (h.receiver ≡ p.batch_builder.results × is_among p.flush_clock p.lingers ≡ true)

  -- A run without a panic, that leaves every caller served.
  abbrev pub AllServed : Option (Producer A Tag Deagg AggError Time) → Type 0
  AllServed none = ⊥
  AllServed (some p) = All (IsServed p) p.handles

  handle-IsServed :
      (p : Producer A Tag Deagg AggError Time) (h : ResultHandle Tag)
      → IsSound p
      → h.receiver < length p.slots
      → (h.receiver ≡ p.batch_builder.results → p.has_linger_waiter ≡ true)
      → IsServed p h
  handle-IsServed p h s placed waited =
      elim (claims h.receiver p.tasks) as (λ c. claims h.receiver p.tasks ≡ c → IsServed p h) [
        | zero ↦ λ e. elim (Bool-cases (p.batch_builder.results == h.receiver)) [
          | inl same ↦ inr (inr (ground (arith, same), s.lingering (waited (ground (arith, same)))))
          | inr other ↦ inl (
              closed-peek p.slots h.receiver placed
                (ground (arith, s.claimed h.receiver, e, other)))
        ]
        | suc c ↦ λ e. inr (inl (omega (arith, e)))
      ]
        refl

  handles-AreServed :
      (p : Producer A Tag Deagg AggError Time) (hs : List (ResultHandle Tag))
      → IsSound p
      → ArePlaced (length p.slots) hs
      → AreWaited p.batch_builder.results p.has_linger_waiter hs
      → All (IsServed p) hs
  handles-AreServed p [] s placed waited = tt
  handles-AreServed p (h ∷ hs) s placed waited =
      (handle-IsServed p h s placed.0 waited.0, handles-AreServed p hs s placed.1 waited.1)

  Kept-AllServed : (o : Option (Producer A Tag Deagg AggError Time)) → KeptState o → AllServed o
  Kept-AllServed none h = h
  Kept-AllServed (some p) h = handles-AreServed p p.handles h h.placed h.waited

  -- However callers, tasks and brokers take turns, no batch gets a second result (which would panic),
  -- and every caller that was given a handle has its result, or a task sends its batch, or its batch is
  -- the one that is collected and a task lingers that will flush it.
  pub no_caller_is_forgotten :
      (es : List (Event Input)) (a : A) → AllServed (run agg es (new agg a))
  no_caller_is_forgotten es a = Kept-AllServed _ (run-Kept es (new agg a) (new-IsSound a))
