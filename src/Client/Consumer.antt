-- ===== src/Client/Consumer.antt =====
-- `StreamConsumer` of src/client/consumer.rs: a stream of the records of a partition, from an offset on.
pub mod Order
pub mod Fetches
pub mod Deliveries
use rskafka.Prelude.{ℕ, Bool, true, false, if◌then◌else◌, Option, none, some, List, [], ◌∷◌, ◌++◌}
use rskafka.Prelude.Int.{ℤ, pos, negsuc, leb_ℤ}
use rskafka.Prelude.Result.{Result, ok, err, panic, ◌>>=◌}
use rskafka.Protocol.Error as Protocol
use rskafka.Client.Records.{RecordAndOffset}
use rskafka.Client.Partition.Records.{add_64}
use rskafka.Client.Partition.Requests.{OffsetAt}
use rskafka.Client.Error.{Error, server_error, timeout}

pub data StartOffset : Type 0 where
  earliest latest : StartOffset
  at_offset : ℤ → StartOffset

-- The trait `FetchClient` during one fetch: its answers may be others at the next one.
pub record FetchClient (Time : Type 0) : Type 0 where
  pub fetch_records : ℤ → Result Error (List (RecordAndOffset Time) × ℤ)
  pub get_offset : OffsetAt → Result Error ℤ

pub record FetchResultOk (Time : Type 0) : Type 0 where
  pub records_and_offsets : List (RecordAndOffset Time)
  pub watermark : ℤ
  pub used_offset : ℤ

pub record StreamConsumer (Time : Type 0) : Type 0 where
  pub start_offset : StartOffset
  pub next_offset : Option ℤ
  -- in seconds
  pub next_backoff : Option ℕ
  pub terminated : Bool
  pub last_high_watermark : ℤ
  pub buffer : List (RecordAndOffset Time)

-- What `poll_next` returns; `crashed` is a panic of the client.
pub data Polled (Time : Type 0) : Type 0 where
  item : RecordAndOffset Time → ℤ → Polled Time
  failed : Error → Polled Time
  ended pending crashed : Polled Time

unfoldable pub is_out_of_range : Error → Bool
is_out_of_range (server_error Protocol.offset_out_of_range message request response virtual) = true
is_out_of_range (server_error _ message request response virtual) = false
is_out_of_range _ = false

-- The errors after which the stream asks for its first offset again.
unfoldable pub retries : Error → StartOffset → Bool
retries e earliest = is_out_of_range e
retries e latest = is_out_of_range e
retries e (at_offset x) = false

module _ {Time : Type 0} where
  unfoldable pub build : StartOffset → StreamConsumer Time
  build start = record {
    start_offset = start;
    next_offset = none;
    next_backoff = none;
    terminated = false;
    last_high_watermark = negsuc 0;
    buffer = [];
  }

  unfoldable pub resolve_start : FetchClient Time → StartOffset → Result Error ℤ
  resolve_start client earliest = client.get_offset OffsetAt.earliest
  resolve_start client latest = client.get_offset OffsetAt.latest
  resolve_start client (at_offset x) = ok x

  unfoldable pub resolve : FetchClient Time → Option ℤ → StartOffset → Result Error ℤ
  resolve client (some x) start = ok x
  resolve client none start = resolve_start client start

  -- The future of one fetch.
  unfoldable pub fetch :
      FetchClient Time → Option ℤ → StartOffset → Result Error (FetchResultOk Time)
  unfolding resolve resolve_start
  fetch client next start = resolve client next start >>= λ offset.
      client.fetch_records offset >>= λ p.
      ok (record { records_and_offsets = p.0; watermark = p.1; used_offset = offset })

  -- `sort_by_key(|x| x.offset)`, which is stable.
  unfoldable pub insert :
      RecordAndOffset Time → List (RecordAndOffset Time) → List (RecordAndOffset Time)
  insert x [] = x ∷ []
  insert x (y ∷ ys) =
      let rest = insert x ys in if leb_ℤ x.offset y.offset then x ∷ y ∷ ys else y ∷ rest

  unfoldable pub sort_by_offset : List (RecordAndOffset Time) → List (RecordAndOffset Time)
  sort_by_offset [] = []
  sort_by_offset (x ∷ xs) = insert x (sort_by_offset xs)

  -- `last().map(|x| x.offset + 1)`, with the `+` of `i64`
  unfoldable pub behind_last : List (RecordAndOffset Time) → Option ℤ
  behind_last [] = none
  behind_last (x ∷ []) = some (add_64 x.offset (pos 1))
  behind_last (x ∷ y ∷ ys) = behind_last (y ∷ ys)

  unfoldable pub on_records : FetchResultOk Time → StreamConsumer Time → StreamConsumer Time
  on_records r c =
      let sorted = sort_by_offset r.records_and_offsets in
      elim (behind_last sorted) [
        | none ↦ record c { next_offset = some r.used_offset; last_high_watermark = r.watermark }
        | some next ↦ record c {
          next_offset = some next;
          last_high_watermark = r.watermark;
          buffer = c.buffer ++ sorted;
        }
      ]

  abbrev pub wiped : StreamConsumer Time → StreamConsumer Time
  wiped c = record c { next_offset = none; next_backoff = some 1 }

  -- What there is without a fetch.
  unfoldable pub ready : StreamConsumer Time → Option (Polled Time × StreamConsumer Time)
  ready c = if c.terminated then some (ended, c) else elim c.buffer [
    | [] ↦ none
    | x ∷ rest ↦ some (item x c.last_high_watermark, record c { buffer = rest })
  ]

  -- `match (data, self.start_offset)`: what is reported, if the loop does not go on.
  unfoldable pub after_fetch :
      Result Error (FetchResultOk Time)
      → StreamConsumer Time
      → Option (Polled Time) × StreamConsumer Time
  after_fetch (ok r) c = (none, on_records r c)
  after_fetch (err e) c =
      if retries e c.start_offset
      then (none, wiped c)
      else (some (failed e), record c { terminated = true })
  after_fetch panic c = (some crashed, c)

  -- A fetch is set up, which takes the backoff.
  abbrev pub fetching : StreamConsumer Time → StreamConsumer Time
  fetching c = record c { next_backoff = none }

  -- `poll_next`, when as many fetches as there are clients in the list can be completed. The clients
  -- that were not asked are left.
  unfoldable pub poll_next :
      List (FetchClient Time)
      → StreamConsumer Time
      → Polled Time × StreamConsumer Time × List (FetchClient Time)
  poll_next [] c = elim (ready c) [ some (p, c') ↦ (p, c', []) | none ↦ (pending, c, []) ]
  poll_next (k ∷ ks) c = elim (ready c) [
    | some (p, c') ↦ (p, c', k ∷ ks)
    | none ↦
        let (out, after) = after_fetch (fetch k c.next_offset c.start_offset) (fetching c) in
        let again = poll_next ks after in elim out [ some p ↦ (p, after, ks) | none ↦ again ]
  ]
