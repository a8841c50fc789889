-- ===== src/Client/Producer/Aggregator.antt =====
-- `RecordAggregator` of src/client/producer/aggregator.rs, which collects records up to a size. Sums of
-- sizes are taken to fit `usize`: the records they stand for are in memory.
pub mod Laws
use rskafka.Prelude.{
  ℕ, ◌+◌, ltb, ◌⊎◌, inl, inr, if◌then◌else◌, Option, none, some, List, [], ◌∷◌, ◌++◌, length,
  get_elem?,
}
use rskafka.Prelude.Int.{ℤ}
use rskafka.Prelude.Result.{Result, ok, panic}
use rskafka.Client.Records.{Record, approximate_size}

pub data TryPush (I T : Type 0) : Type 0 where
  no_capacity : I → TryPush I T
  aggregated : T → TryPush I T

-- The trait `Aggregator`, with the errors `AggError`, the tags `Tag` and the deaggregators `Deagg`. Both
-- functions may fail, on the left, and change the aggregator `A`. A panic of one is outside of the model.
pub record Aggregator (A Input Tag Deagg AggError Time : Type 0) : Type 0 where
  pub try_push : A → Input → (AggError ⊎ TryPush Input Tag) × A
  pub flush : A → (AggError ⊎ (List (Record Time) × Deagg)) × A

pub record RecordAggregator (Time : Type 0) : Type 0 where
  pub max_batch_size : ℕ
  pub batch_size : ℕ
  pub records : List (Record Time)

module _ {Time : Type 0} where
  unfoldable pub new : ℕ → RecordAggregator Time
  new max_batch_size = record { max_batch_size = max_batch_size; batch_size = 0; records = [] }

  unfoldable pub try_push :
      RecordAggregator Time → Record Time → TryPush (Record Time) ℕ × RecordAggregator Time
  try_push a r =
      if ltb a.max_batch_size (a.batch_size + approximate_size r) then (no_capacity r, a) else (
        aggregated (length a.records),
        record a { batch_size = a.batch_size + approximate_size r; records = a.records ++ r ∷ [] },
      )

  -- The records, and the aggregator that is left.
  unfoldable pub flush : RecordAggregator Time → List (Record Time) × RecordAggregator Time
  flush a = (a.records, record a { batch_size = 0; records = [] })

-- `RecordAggregatorStatusDeaggregator`: `input[tag]`, which panics out of bounds.
unfoldable pub deaggregate : {E : Type 0} → List ℤ → ℕ → Result E ℤ
deaggregate input tag = elim (get_elem? input tag) [ none ↦ panic | some status ↦ ok status ]

-- `impl Aggregator for RecordAggregator`
abbrev pub record_aggregator :
    {E Time : Type 0} → Aggregator (RecordAggregator Time) (Record Time) ℕ (Unit {0}) E Time
record_aggregator = record {
  try_push = λ a r. (inr (try_push a r).0, (try_push a r).1);
  flush = λ a. (inr ((flush a).0, tt), (flush a).1);
}
