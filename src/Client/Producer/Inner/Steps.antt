-- ===== src/Client/Producer/Inner/Steps.antt =====
-- Every step of the producer of src/client/producer.rs keeps it sound.
use rskafka.Prelude.{
  ℕ, ◌≡◌, refl, arith, ◌==◌, Bool, true, false, inl, inr, ◌⊎◌, if◌then◌else◌, Option, none, some,
  ◌∷◌, get_elem?,
}
use rskafka.Prelude.Result.{Result, ok, err, panic}
use rskafka.Client.Producer.Aggregator.{TryPush, no_capacity, aggregated, Aggregator}
use rskafka.Client.Producer.Broadcast.{
  Received, set, openings, openings-set, length-set, open-lt-length,
}
use rskafka.Client.Producer.Batch.{Error, BatchWriteResult, ResultHandle, BatchBuilder, pushed}
use rskafka.Client.Producer.Batch as Batch
use rskafka.Client.Producer.Inner.{
  FlushTask, Producer, flush_batch, flush, accept, push_again, with_builder, second_push,
  first_push, try_push, without_task, Outcome,
}
use rskafka.Client.Producer.Inner.Laws.{
  claims-remove_at, current_is_open, is_among, AreWaited-lingering, IsSound, Kept, KeptState,
  flush_batch-Kept,
}

module _ {A Input Tag Deagg AggError Time : Type 0}
    (agg : Aggregator A Input Tag Deagg AggError Time) where
  pub flush-Kept :
      (token : Option ℕ) (p : Producer A Tag Deagg AggError Time)
      → IsSound p
      → Kept (flush agg token p)
  unfolding flush
  flush-Kept none p h = flush_batch-Kept agg p h.claimed h.placed
  flush-Kept (some token) p h =
      elim (token == p.flush_clock)
        as (λ b. Kept (if b then flush_batch agg p else some (ok tt, p))) [
          | true ↦ flush_batch-Kept agg p h.claimed h.placed
          | false ↦ h
        ]

  -- The handle of what was pushed waits for the batch that is collected.
  abbrev IsCurrent : ℕ → Result (Error AggError) (TryPush Input (ResultHandle Tag)) → Type 0
  IsCurrent id (ok (aggregated handle)) = handle.receiver ≡ id
  IsCurrent id (ok (no_capacity input)) = Unit
  IsCurrent id (err e) = Unit
  IsCurrent id panic = Unit

  pushed-IsCurrent : (id : ℕ) (r : AggError ⊎ TryPush Input Tag) → IsCurrent id (pushed agg id r)
  pushed-IsCurrent id (inr (aggregated tag)) = refl
  pushed-IsCurrent id (inr (no_capacity input)) = tt
  pushed-IsCurrent id (inl e) = tt

  with_builder-IsSound :
      (p : Producer A Tag Deagg AggError Time) (b : BatchBuilder A)
      → b.results ≡ p.batch_builder.results
      → IsSound p
      → IsSound (with_builder agg p b)
  with_builder-IsSound p b e h = record {
    claimed = λ id. rw e (h.claimed id);
    lingering = h.lingering;
    waited = rw e h.waited;
    placed = h.placed;
  }

  accept-IsSound :
      (handle : ResultHandle Tag) (p : Producer A Tag Deagg AggError Time)
      → handle.receiver ≡ p.batch_builder.results
      → IsSound p
      → IsSound (accept agg handle p)
  accept-IsSound handle p e h = record {
    claimed = h.claimed;
    lingering = λ q. linger p.has_linger_waiter h.lingering;
    waited = ((λ q. refl), AreWaited-lingering p.batch_builder.results p.handles);
    placed = (
      rw e (open-lt-length p.slots p.batch_builder.results (current_is_open p h.claimed)),
      h.placed,
    );
  }
    where
      linger :
          (b : Bool)
          → (b ≡ true → is_among p.flush_clock p.lingers ≡ true)
          → is_among p.flush_clock (if b then p.lingers else p.flush_clock ∷ p.lingers) ≡ true
      linger true f = f refl
      linger false f = ground arith

  push_again-Kept :
      (p : Producer A Tag Deagg AggError Time)
      (r : Result (Error AggError) (TryPush Input (ResultHandle Tag)))
      → IsCurrent p.batch_builder.results r
      → IsSound p
      → Kept (push_again agg p r)
  push_again-Kept p (ok (aggregated handle)) e h = accept-IsSound handle p e h
  push_again-Kept p (ok (no_capacity input)) e h = h
  push_again-Kept p (err x) e h = h
  push_again-Kept p panic e h = h

  second_push-Kept : (input : Input) (o : Outcome agg) → Kept o → Kept (second_push agg input o)
  unfolding Batch.try_push
  second_push-Kept input none h = h
  second_push-Kept input (some (ok u, p)) h =
      push_again-Kept _ _ (pushed-IsCurrent p.batch_builder.results _)
        (with_builder-IsSound p _ refl h)
  second_push-Kept input (some (err e, p)) h = h
  second_push-Kept input (some (panic, p)) h = h

  first_push-Kept :
      (p : Producer A Tag Deagg AggError Time)
      (r : Result (Error AggError) (TryPush Input (ResultHandle Tag)))
      → IsCurrent p.batch_builder.results r
      → IsSound p
      → Kept (first_push agg p r)
  first_push-Kept p (ok (aggregated handle)) e h = accept-IsSound handle p e h
  first_push-Kept p (ok (no_capacity input)) e h =
      second_push-Kept input (flush agg none p) (flush-Kept none p h)
  first_push-Kept p (err x) e h = h
  first_push-Kept p panic e h = h

  pub try_push-Kept :
      (input : Input) (p : Producer A Tag Deagg AggError Time)
      → IsSound p
      → Kept (try_push agg input p)
  unfolding try_push Batch.try_push
  try_push-Kept input p h =
      first_push-Kept _ _ (pushed-IsCurrent p.batch_builder.results _)
        (with_builder-IsSound p _ refl h)

  -- A task that gave its batch a result is no longer needed.
  pub settled-IsSound :
      (i : ℕ) (p : Producer A Tag Deagg AggError Time) (t : FlushTask Deagg Time)
      (v : Received (BatchWriteResult AggError Deagg))
      → get_elem? p.tasks i ≡ some t
      → IsSound p
      → KeptState (without_task agg i p (some (set p.slots t.results (some v))))
  settled-IsSound i p t v e h = record {
    claimed = λ id. ground (
      arith,
      h.claimed id,
      h.claimed t.results,
      claims-remove_at i id p.tasks t e,
      claims-remove_at i t.results p.tasks t e,
      openings-set p.slots t.results id v,
    );
    lingering = h.lingering;
    waited = h.waited;
    placed = rw (length-set p.slots t.results (some v)) h.placed;
  }

  pub task_is_open :
      (i : ℕ) (p : Producer A Tag Deagg AggError Time) (t : FlushTask Deagg Time)
      → get_elem? p.tasks i ≡ some t
      → IsSound p
      → openings p.slots t.results ≡ 1
  task_is_open i p t e h =
      ground (arith, h.claimed t.results, claims-remove_at i t.results p.tasks t e)
