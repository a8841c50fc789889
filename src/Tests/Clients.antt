-- ===== src/Tests/Clients.antt =====
-- The theorems about src/client and the versioned arrays at concrete inputs.
use rskafka.Prelude.{
  ℕ, ltb, Bool-cases, inl, inr, ◌≡◌, ◌==◌, if◌then◌else◌, arith, none, some, List, [], ◌∷◌, All,
}
use rskafka.Prelude.Int.{ℤ, pos, negsuc, ◌+ℤ◌}
use rskafka.Prelude.Result.{ok}
use rskafka.Protocol.Messages.Metadata.{MetadataResponse}
use rskafka.Client.Records.{Record, RecordAndOffset}
use rskafka.Client.Producer.Aggregator as Aggregator
use rskafka.Client.Producer.Aggregator.Laws.{push_all, IsPlaced, IsSound, tags_find_their_records}
use rskafka.Client.MetadataCache.{default, invalidate}
use rskafka.Client.MetadataCache.Laws.{
  Access, gets, invalidates, updates, run, count_updates, invalidation_hits_what_was_read,
}
use rskafka.Client.Consumer.{FetchClient, at_offset, build}
use rskafka.Client.Consumer.Order.{Ascends}
use rskafka.Client.Consumer.Fetches.{Answers, IsPartition}
use rskafka.Client.Consumer.Deliveries.{polls, deliveries_ascend}

-- A record of two bytes, with a number for its time.
abbrev small : Record ℕ
small = record { key = none; value = some (1 ∷ 2 ∷ []); headers = []; timestamp = 1337 }

abbrev inputs : List (Record ℕ)
inputs = small ∷ small ∷ small ∷ []

tags_find_their_records_example :
    All
      (IsPlaced (Aggregator.flush (push_all (Aggregator.new 5) inputs).1).0)
      (push_all (Aggregator.new 5) inputs).0
    × IsSound (push_all (Aggregator.new 5) inputs).1
tags_find_their_records_example = tags_find_their_records 5 inputs

-- Each fetch is answered with the record at its offset, up to the hundredth record.
abbrev one_at : ℤ → List (RecordAndOffset ℕ)
one_at (pos n) = if ltb n 100 then record { content = small; offset = pos n } ∷ [] else []
one_at (negsuc n) = []

abbrev one_by_one : FetchClient ℕ
one_by_one = record { fetch_records = λ o. ok (one_at o, o); get_offset = λ at. ok (pos 0) }

one_at-Answers : (o : ℤ) → Answers o (ok (one_at o, o))
unfolding ◌+ℤ◌
one_at-Answers (pos n) = elim (Bool-cases (ltb n 100)) [
  | inl few ↦ rw few ((omega arith, tt), (ground arith, tt), (tt, tt))
  | inr many ↦ rw many (tt, tt, tt)
]
one_at-Answers (negsuc n) = (tt, tt, tt)

one_by_one-IsPartition : IsPartition one_by_one
one_by_one-IsPartition = record { answers = one_at-Answers }

deliveries_ascend_example :
    Ascends (pos 4) (polls 3 (one_by_one ∷ one_by_one ∷ []) (build (at_offset (pos 4))))
deliveries_ascend_example =
    deliveries_ascend 3 (one_by_one ∷ one_by_one ∷ []) (pos 4)
      (one_by_one-IsPartition, (one_by_one-IsPartition, tt))

abbrev no_topics : MetadataResponse
no_topics = record {
  throttle_time_ms = none;
  brokers = [];
  cluster_id = none;
  controller_id = none;
  topics = [];
}

-- Another task finds an old entry, drops it and stores a new one.
abbrev others : List Access
others = gets none ∷ invalidates 0 ∷ updates no_topics ∷ []

invalidation_hits_what_was_read_example : invalidate 0 (run others default) ≡ (
    if count_updates others == 0
    then record (run others default) { cached = none }
    else run others default)
invalidation_hits_what_was_read_example =
    invalidation_hits_what_was_read others default (omega arith) (omega arith)
