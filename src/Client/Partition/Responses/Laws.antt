-- ===== src/Client/Partition/Responses/Laws.antt =====
-- Which responses src/client/partition.rs accepts, and what it takes from them.
use rskafka.Prelude.{
  ℕ, zero, suc, ◌+◌, ◌<◌, ◌≡◌, ◌↔◌, refl, ap, subst, arith, Option, none, some, List, [], ◌∷◌,
  length, get_elem?,
}
use rskafka.Prelude.Int.{ℤ, pos, eqb_ℤ→eq, eq→eqb_ℤ}
use rskafka.Prelude.Result.{ok, ◌>>=◌, >>=-eq-ok}
use rskafka.Protocol.Primitives.Text.Utf8.{Text}
use rskafka.Protocol.Primitives.Text.Equality.{same_text→eq, same_text_self}
use rskafka.Protocol.Error as Protocol
use rskafka.Protocol.Messages.Produce.{
  ProduceResponse, ProduceResponseResponse, ProduceResponsePartitionResponse,
}
use rskafka.Protocol.Messages.Fetch.{FetchResponse, FetchResponseTopic, FetchResponsePartition}
use rskafka.Protocol.Messages.ListOffsets.{
  ListOffsetsResponse, ListOffsetsResponseTopic, ListOffsetsResponsePartition,
}
use rskafka.Protocol.Messages.DeleteRecords.{
  DeleteRecordsResponse, DeleteResponseTopic, DeleteResponsePartition,
}
use rskafka.Client.Error.{
  RequestContext, ServerErrorResponse, InvalidResponse, expected_one_topic, expected_one_partition,
  partition_fetch_state,
}
use rskafka.Client.Partition.Records.{add_64}
use rskafka.Client.Partition.Responses.{
  exactly_one, exactly, exactly_one_topic, exactly_one_partition, checked_partition, checked_topic,
  checked_response, offsets_from, process_fetch_response, process_list_offsets_response,
  process_delete_records_response,
}

exactly-eq-ok :
    {A : Type 0} (e : ℕ → InvalidResponse) (xs : List A) (x : A) → exactly e xs ≡ ok x → xs ≡ x ∷ []
unfolding exactly_one
exactly-eq-ok e [] x h = cc
exactly-eq-ok e (y ∷ []) x h = cc h
exactly-eq-ok e (y ∷ z ∷ xs) x h = cc

module _ {T P : Type 0} (name : T → Text) (partitions : T → List P) (index : P → ℤ)
    (error_of : P → Option Protocol.Error) (response_of : P → Option ServerErrorResponse) where
  -- The response is of the one topic and the one partition that were asked for, and has no error.
  pub record IsFor (topic : Text) (partition : ℤ) (ts : List T) (p : P) : Type 0 where
    pub topic_of : T
    pub one_topic : ts ≡ topic_of ∷ []
    pub same_topic : name topic_of ≡ topic
    pub one_partition : partitions topic_of ≡ p ∷ []
    pub same_partition : index p ≡ partition
    pub no_error : error_of p ≡ none

  checked_partition-eq-ok :
      (context : RequestContext) (partition : ℤ) (p q : P)
      → checked_partition name partitions index error_of response_of context partition p ≡ ok q
      → (p ≡ q) × (index p ≡ partition) × (error_of p ≡ none)
  checked_partition-eq-ok context partition p q h = ground (arith, eqb_ℤ→eq (index p) partition)

  checked_topic-eq-ok :
      (context : RequestContext) (topic : Text) (partition : ℤ) (t : T) (q : P)
      → checked_topic name partitions index error_of response_of context topic partition t ≡ ok q
      → (name t ≡ topic)
        × (exactly_one_partition (partitions t)
            >>= checked_partition name partitions index error_of response_of context partition)
          ≡ ok q
  checked_topic-eq-ok context topic partition t q h = ground (arith, same_text→eq (name t) topic)

  checked_response-IsFor :
      (context : RequestContext) (topic : Text) (partition : ℤ) (ts : List T) (p : P)
      → checked_response name partitions index error_of response_of context topic partition ts
        ≡ ok p
      → IsFor topic partition ts p
  checked_response-IsFor context topic partition ts p h =
      let (t, one, h1) = >>=-eq-ok (exactly_one_topic ts) _ p h in
      let (same, h2) = checked_topic-eq-ok context topic partition t p h1 in
      let (q, one', h3) = >>=-eq-ok (exactly_one_partition (partitions t)) _ p h2 in
      let (eq, same', fine) = checked_partition-eq-ok context partition q p h3 in
      record {
        topic_of = t;
        one_topic = exactly-eq-ok expected_one_topic ts t one;
        same_topic = same;
        one_partition =
            subst (λ x. partitions t ≡ x ∷ []) eq
              (exactly-eq-ok expected_one_partition (partitions t) q one');
        same_partition = subst (λ x. index x ≡ partition) eq same';
        no_error = subst (λ x. error_of x ≡ none) eq fine;
      }

  IsFor-checked_response :
      (context : RequestContext) (topic : Text) (partition : ℤ) (ts : List T) (p : P)
      → IsFor topic partition ts p
      → checked_response name partitions index error_of response_of context topic partition ts
        ≡ ok p
  unfolding exactly_one
  IsFor-checked_response context topic partition ts p h =
      rw (h.one_topic, exactly_one)
        (rw (h.same_topic, same_text_self topic)
          (rw (h.one_partition)
            (rw (h.same_partition, eq→eqb_ℤ partition partition refl) (rw h.no_error refl))))

  -- A response is accepted exactly if it has one topic with the name that was asked for, that topic has
  -- one partition with the index that was asked for, and this one has no error; it is what is taken.
  pub response_is_checked :
      (context : RequestContext) (topic : Text) (partition : ℤ) (ts : List T) (p : P)
      → (checked_response name partitions index error_of response_of context topic partition ts
          ≡ ok p)
        ↔ IsFor topic partition ts p
  response_is_checked context topic partition ts p = (
    checked_response-IsFor context topic partition ts p,
    IsFor-checked_response context topic partition ts p,
  )

-- Offsets that are consecutive, from one on.
pub record AreConsecutive (base : ℤ) (n : ℕ) (offsets : List ℤ) : Type 0 where
  pub count : length offsets ≡ n
  pub each : (i : ℕ) → i < n → get_elem? offsets i ≡ some (add_64 (pos i) base)

offsets_from-get :
    (base : ℤ) (x n i : ℕ)
    → i < n
    → get_elem? (offsets_from base x n) i ≡ some (add_64 (pos (x + i)) base)
unfolding offsets_from
offsets_from-get base x zero i h = absurd (omega arith)
offsets_from-get base x (suc n) zero h = let e : x + 0 ≡ x = omega arith in rw e refl
offsets_from-get base x (suc n) (suc i) h =
    let e : x + suc i ≡ suc x + i = omega arith in
    rw e (offsets_from-get base (suc x) n i (omega arith))

length-offsets_from : (base : ℤ) (x n : ℕ) → length (offsets_from base x n) ≡ n
unfolding offsets_from
length-offsets_from base x zero = refl
length-offsets_from base x (suc n) = ap suc (length-offsets_from base (suc x) n)

pub offsets_from-AreConsecutive : (base : ℤ) (n : ℕ) → AreConsecutive base n (offsets_from base 0 n)
offsets_from-AreConsecutive base n = record {
  count = length-offsets_from base 0 n;
  each = λ i h.
      let e : 0 + i ≡ i = omega arith in
      subst (λ k. get_elem? (offsets_from base 0 n) i ≡ some (add_64 (pos k) base)) e
        (offsets_from-get base 0 n i h);
}

-- Each kind of response that is for one partition, with what is taken from it.
abbrev pub ProducedFor : Text → ℤ → ProduceResponse → ProduceResponsePartitionResponse → Type 0
ProducedFor topic partition r p =
    IsFor (λ (t : ProduceResponseResponse). t.name) (λ t. t.partition_responses) (λ p. p.index)
      (λ p. p.error) (λ p. none) topic partition r.responses p

abbrev pub FetchedFor : Text → ℤ → FetchResponse → FetchResponsePartition → Type 0
FetchedFor topic partition r p =
    IsFor (λ (t : FetchResponseTopic). t.topic) (λ t. t.partitions) (λ p. p.partition_index)
      (λ p. p.error_code) (λ p. some (partition_fetch_state p.high_watermark p.last_stable_offset))
      topic partition r.responses p

abbrev pub ListedFor : Text → ℤ → ListOffsetsResponse → ListOffsetsResponsePartition → Type 0
ListedFor topic partition r p =
    IsFor (λ (t : ListOffsetsResponseTopic). t.name) (λ t. t.partitions) (λ p. p.partition_index)
      (λ p. p.error_code) (λ p. none) topic partition r.topics p

abbrev pub DeletedFor : Text → ℤ → DeleteRecordsResponse → DeleteResponsePartition → Type 0
DeletedFor topic partition r p =
    IsFor (λ (t : DeleteResponseTopic). t.name) (λ t. t.partitions) (λ p. p.partition_index)
      (λ p. p.error) (λ p. none) topic partition r.topics p

-- The responses to fetching, listing offsets and deleting records are accepted exactly if they are for
-- the one topic and the one partition that were asked for, without an error.
pub responses_are_for_the_partition :
    (topic : Text) (partition offset : ℤ) (f : FetchResponse) (fp : FetchResponsePartition)
    (l : ListOffsetsResponse) (lp : ListOffsetsResponsePartition) (d : DeleteRecordsResponse)
    (dp : DeleteResponsePartition)
    → ((process_fetch_response partition topic f offset ≡ ok fp) ↔ FetchedFor topic partition f fp)
      × ((process_list_offsets_response partition topic l ≡ ok lp) ↔ ListedFor topic partition l lp)
      × ((process_delete_records_response topic partition d ≡ ok dp)
          ↔ DeletedFor topic partition d dp)
unfolding process_fetch_response process_list_offsets_response process_delete_records_response
responses_are_for_the_partition topic partition offset f fp l lp d dp = (
  response_is_checked _ _ _ _ _ _ topic partition f.responses fp,
  response_is_checked _ _ _ _ _ _ topic partition l.topics lp,
  response_is_checked _ _ _ _ _ _ topic partition d.topics dp,
)
