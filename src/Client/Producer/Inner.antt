-- ===== src/Client/Producer/Inner.antt =====
-- `ProducerInner` of src/client/producer.rs, with what it shares with callers and tasks: the places of
-- results, the tasks that send a batch, and those that linger before they flush one. An event is what
-- the scheduler or a broker may do next; each runs under the lock of the producer.
pub mod Laws
pub mod Steps
pub mod Runs
use rskafka.Prelude.{
  ℕ, ◌⊎◌, inl, inr, zero, suc, ◌+◌, ◌%◌, ◌==◌, Bool, true, false, if◌then◌else◌, Option, none, some,
  List, [], ◌∷◌, ◌++◌, length, get_elem?,
}
use rskafka.Prelude.Int.{ℤ}
use rskafka.Prelude.Result.{Result, ok, err, panic}
use rskafka.Protocol.Primitives.Varint.{u64_mod}
use rskafka.Client.Records.{Record}
use rskafka.Client.Error as Client
use rskafka.Client.Producer.Aggregator.{TryPush, no_capacity, aggregated, Aggregator}
use rskafka.Client.Producer.Broadcast.{Slots, new_slot, broadcast, drop_broadcast}
use rskafka.Client.Producer.Batch.{
  Error, aggregator_error, client_error, too_large, AggregatedStatus, BatchWriteResult,
  ResultHandle, BatchBuilder, Flushed, nothing_to_send, given_up, sends, background_flush,
}
use rskafka.Client.Producer.Batch as Batch

-- A task that sends a batch.
pub record FlushTask (Deagg Time : Type 0) : Type 0 where
  pub results : ℕ
  pub batch : List (Record Time)
  pub status_deagg : Deagg

-- `flush_clock` is a `usize` of 64 bits; `lingers` has the tokens of the tasks that sleep.
pub record Producer (A Tag Deagg AggError Time : Type 0) : Type 0 where
  pub batch_builder : BatchBuilder A
  pub flush_clock : ℕ
  pub has_linger_waiter : Bool
  pub slots : Slots (BatchWriteResult AggError Deagg)
  pub tasks : List (FlushTask Deagg Time)
  pub lingers : List ℕ
  pub handles : List (ResultHandle Tag)

-- What the scheduler, a caller or a broker may do: a caller produces or flushes, a task that lingers or
-- sends is done, or one that sends is lost. A number is the place of a task in its list: nothing happens
-- where there is none.
pub data Event (Input : Type 0) : Type 0 where
  produces : Input → Event Input
  lingered : ℕ → Event Input
  flushes : Event Input
  answers : ℕ → Client.Error ⊎ List ℤ → Event Input
  loses : ℕ → Event Input

-- The list without what stands at a place.
abbrev pub remove_at : {X : Type 0} → ℕ → List X → List X
remove_at i [] = []
remove_at zero (x ∷ xs) = xs
remove_at (suc i) (x ∷ xs) = x ∷ remove_at i xs

module _ {A Input Tag Deagg AggError Time : Type 0}
    (agg : Aggregator A Input Tag Deagg AggError Time) where
  abbrev pub new : A → Producer A Tag Deagg AggError Time
  new aggregator = record {
    batch_builder = record { aggregator = aggregator; results = 0 };
    flush_clock = 0;
    has_linger_waiter = false;
    slots = none ∷ [];
    tasks = [];
    lingers = [];
    handles = [];
  }

  -- A new batch, with a new place, after the old one went its way.
  abbrev pub next_batch :
      A
      → Slots (BatchWriteResult AggError Deagg)
      → List (FlushTask Deagg Time)
      → Producer A Tag Deagg AggError Time
      → Producer A Tag Deagg AggError Time
  next_batch aggregator slots tasks p = record p {
    batch_builder = record { aggregator = aggregator; results = length slots };
    flush_clock = (p.flush_clock + 1) % u64_mod;
    has_linger_waiter = false;
    slots = new_slot slots;
    tasks = tasks;
  }

  abbrev pub Outcome : Type 0
  Outcome = Option (Result (Error AggError) (Unit {0}) × Producer A Tag Deagg AggError Time)

  abbrev pub published :
      A
      → Producer A Tag Deagg AggError Time
      → Option (Slots (BatchWriteResult AggError Deagg))
      → Outcome
  published aggregator p none = none
  published aggregator p (some slots) = some (ok tt, next_batch aggregator slots p.tasks p)

  abbrev pub after_flush :
      Producer A Tag Deagg AggError Time → Flushed AggError Deagg Time → A → Outcome
  after_flush p (nothing_to_send status) aggregator =
      published aggregator p (broadcast p.slots p.batch_builder.results (ok status))
  after_flush p (given_up e) aggregator = some (
    err (aggregator_error e),
    next_batch aggregator (drop_broadcast p.slots p.batch_builder.results) p.tasks p,
  )
  after_flush p (sends batch deagg) aggregator =
      let task : FlushTask Deagg Time = record {
        results = p.batch_builder.results;
        batch = batch;
        status_deagg = deagg;
      } in
      some (ok tt, next_batch aggregator p.slots (p.tasks ++ task ∷ []) p)

  unfoldable pub flush_batch : Producer A Tag Deagg AggError Time → Outcome
  flush_batch p =
      after_flush p (background_flush agg p.batch_builder).0
        (background_flush agg p.batch_builder).1

  -- `flush`: `none` is the panic of a second result for a batch.
  unfoldable pub flush : Option ℕ → Producer A Tag Deagg AggError Time → Outcome
  flush none p = flush_batch p
  flush (some token) p = if token == p.flush_clock then flush_batch p else some (ok tt, p)

  -- `CallerRole`, and the task that lingers for the caller.
  abbrev pub accept :
      ResultHandle Tag → Producer A Tag Deagg AggError Time → Producer A Tag Deagg AggError Time
  accept handle p = record p {
    has_linger_waiter = true;
    lingers = if p.has_linger_waiter then p.lingers else p.flush_clock ∷ p.lingers;
    handles = handle ∷ p.handles;
  }

  abbrev pub Pushed : Type 0
  Pushed = Option (Result (Error AggError) (ResultHandle Tag) × Producer A Tag Deagg AggError Time)

  abbrev pub push_again :
      Producer A Tag Deagg AggError Time
      → Result (Error AggError) (TryPush Input (ResultHandle Tag))
      → Pushed
  push_again p (ok (aggregated handle)) = some (ok handle, accept handle p)
  push_again p (ok (no_capacity input)) = some (err too_large, p)
  push_again p (err e) = some (err e, p)
  push_again p panic = some (panic, p)

  abbrev pub with_builder :
      Producer A Tag Deagg AggError Time → BatchBuilder A → Producer A Tag Deagg AggError Time
  with_builder p b = record p { batch_builder = b }

  abbrev pub second_push : Input → Outcome → Pushed
  second_push input none = none
  second_push input (some (ok u, p)) =
      let pushed = Batch.try_push agg p.batch_builder input in
      push_again (with_builder p pushed.1) pushed.0
  second_push input (some (err e, p)) = some (err e, p)
  second_push input (some (panic, p)) = some (panic, p)

  abbrev pub first_push :
      Producer A Tag Deagg AggError Time
      → Result (Error AggError) (TryPush Input (ResultHandle Tag))
      → Pushed
  first_push p (ok (aggregated handle)) = some (ok handle, accept handle p)
  first_push p (ok (no_capacity input)) = second_push input (flush none p)
  first_push p (err e) = some (err e, p)
  first_push p panic = some (panic, p)

  unfoldable pub try_push : Input → Producer A Tag Deagg AggError Time → Pushed
  try_push input p =
      let pushed = Batch.try_push agg p.batch_builder input in
      first_push (with_builder p pushed.1) pushed.0

  -- What a task publishes when the client answered.
  abbrev pub write_result : Deagg → Client.Error ⊎ List ℤ → BatchWriteResult AggError Deagg
  write_result deagg (inl e) = err (client_error e)
  write_result deagg (inr offsets) =
      ok (record { aggregated_status = offsets; status_deagg = deagg })

  abbrev pub without_task :
      ℕ
      → Producer A Tag Deagg AggError Time
      → Option (Slots (BatchWriteResult AggError Deagg))
      → Option (Producer A Tag Deagg AggError Time)
  without_task i p none = none
  without_task i p (some slots) = some (record p { slots = slots; tasks = remove_at i p.tasks })

  abbrev pub finish :
      ℕ
      → Client.Error ⊎ List ℤ
      → Producer A Tag Deagg AggError Time
      → Option (FlushTask Deagg Time)
      → Option (Producer A Tag Deagg AggError Time)
  finish i r p none = some p
  finish i r p (some t) =
      without_task i p (broadcast p.slots t.results (write_result t.status_deagg r))

  abbrev pub lose :
      ℕ
      → Producer A Tag Deagg AggError Time
      → Option (FlushTask Deagg Time)
      → Option (Producer A Tag Deagg AggError Time)
  lose i p none = some p
  lose i p (some t) = without_task i p (some (drop_broadcast p.slots t.results))

  -- The linger is over: the task flushes with its token.
  abbrev pub fire : ℕ → Producer A Tag Deagg AggError Time → Option ℕ → Outcome
  fire i p none = some (ok tt, p)
  fire i p (some token) = flush (some token) (record p { lingers = remove_at i p.lingers })

  abbrev pub state_of :
      {X : Type 0}
      → Option (X × Producer A Tag Deagg AggError Time)
      → Option (Producer A Tag Deagg AggError Time)
  state_of none = none
  state_of (some (x, p)) = some p

  unfoldable pub step :
      Event Input → Producer A Tag Deagg AggError Time → Option (Producer A Tag Deagg AggError Time)
  step (produces input) p = state_of (try_push input p)
  step (lingered i) p = state_of (fire i p (get_elem? p.lingers i))
  step flushes p = state_of (flush none p)
  step (answers i r) p = finish i r p (get_elem? p.tasks i)
  step (loses i) p = lose i p (get_elem? p.tasks i)

  abbrev pub then_run :
      (Producer A Tag Deagg AggError Time → Option (Producer A Tag Deagg AggError Time))
      → Option (Producer A Tag Deagg AggError Time)
      → Option (Producer A Tag Deagg AggError Time)
  then_run f none = none
  then_run f (some p) = f p

  unfoldable pub run :
      List (Event Input)
      → Producer A Tag Deagg AggError Time
      → Option (Producer A Tag Deagg AggError Time)
  run [] p = some p
  run (e ∷ es) p = then_run (run es) (step e p)
