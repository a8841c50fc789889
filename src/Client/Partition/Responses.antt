-- ===== src/Client/Partition/Responses.antt =====
-- The responses of src/client/partition.rs: what each one must be, and what is taken from it.
pub mod Laws
pub mod Offsets
use rskafka.Prelude.{
  ℕ, zero, suc, ◌+◌, if◌then◌else◌, Bool, true, false, Option, none, some, List, [], ◌∷◌, length,
  map,
}
use rskafka.Prelude.Int.{ℤ, pos, ◌+ℤ◌, eqb_ℤ, ltb_ℤ}
use rskafka.Prelude.Result.{Result, ok, err, panic, ◌>>=◌}
use rskafka.Protocol.Primitives.Text.Utf8.{Text}
use rskafka.Protocol.Primitives.Text.Equality.{same_text}
use rskafka.Protocol.Error as Protocol
use rskafka.Protocol.Messages.Produce.{
  ProduceResponse, ProduceResponseResponse, ProduceResponsePartitionResponse,
}
use rskafka.Protocol.Messages.Fetch.{FetchResponse, FetchResponseTopic, FetchResponsePartition}
use rskafka.Protocol.Messages.ListOffsets.{
  ListOffsetsResponse, ListOffsetsResponseTopic, ListOffsetsResponsePartition,
}
use rskafka.Protocol.Messages.DeleteRecords.{
  DeleteRecordsResponse, DeleteResponseTopic, DeleteResponsePartition,
}
use rskafka.Client.Partition.Records.{add_64}
use rskafka.Client.Error.{
  Error, RequestContext, ServerErrorResponse, InvalidResponse, invalid_response, server_error,
  expected_one_topic, expected_one_partition, expected_one_offset, other_topic, other_partition,
  null_offsets, for_partition, for_fetch, partition_fetch_state,
}

-- `ExactlyOne` of src/validation.rs: the one item, or how many there are.
unfoldable pub exactly_one : {A : Type 0} → List A → Result ℕ A
exactly_one [] = err 0
exactly_one (x ∷ []) = ok x
exactly_one (x ∷ y ∷ ys) = err (length (x ∷ y ∷ ys))

-- With the errors of src/client/error.rs.
abbrev pub exactly : {A : Type 0} → (ℕ → InvalidResponse) → List A → Result Error A
exactly e xs = elim (exactly_one xs) [
  | ok x ↦ ok x
  | err n ↦ err (invalid_response (e n))
  | panic ↦ panic
]

abbrev pub exactly_one_topic : {A : Type 0} → List A → Result Error A
exactly_one_topic xs = exactly expected_one_topic xs

abbrev pub exactly_one_partition : {A : Type 0} → List A → Result Error A
exactly_one_partition xs = exactly expected_one_partition xs

-- The checks that the four responses share: one topic, with its name, and one partition, with its
-- index. `context` has what an error of the partition is reported with.
module _ {T P : Type 0} (name : T → Text) (partitions : T → List P) (index : P → ℤ)
    (error_of : P → Option Protocol.Error) (response_of : P → Option ServerErrorResponse) where
  abbrev pub checked_partition : RequestContext → ℤ → P → Result Error P
  checked_partition context partition p =
      if eqb_ℤ (index p) partition
      then elim (error_of p) [
        | some e ↦ err (server_error e none context (response_of p) false)
        | none ↦ ok p
      ]
      else err (invalid_response (other_partition (index p)))

  abbrev pub checked_topic : RequestContext → Text → ℤ → T → Result Error P
  checked_topic context topic partition t =
      if same_text (name t) topic
      then exactly_one_partition (partitions t) >>= checked_partition context partition
      else err (invalid_response (other_topic (name t)))

  abbrev pub checked_response : RequestContext → Text → ℤ → List T → Result Error P
  checked_response context topic partition ts =
      exactly_one_topic ts >>= checked_topic context topic partition

-- `(0..num_records).map(|x| x + base_offset)`, from `x` on
unfoldable pub offsets_from : ℤ → ℕ → ℕ → List ℤ
offsets_from base x zero = []
offsets_from base x (suc n) = add_64 (pos x) base ∷ offsets_from base (suc x) n

unfoldable pub process_produce_response : ℤ → Text → ℕ → ProduceResponse → Result Error (List ℤ)
process_produce_response partition topic num_records response =
    checked_response (λ (t : ProduceResponseResponse). t.name) (λ t. t.partition_responses)
      (λ p. p.index) (λ p. p.error) (λ p. none) (for_partition topic partition) topic partition
      response.responses
    >>= λ p. ok (offsets_from p.base_offset 0 num_records)

unfoldable pub process_fetch_response :
    ℤ → Text → FetchResponse → ℤ → Result Error FetchResponsePartition
process_fetch_response partition topic response request_offset =
    checked_response (λ (t : FetchResponseTopic). t.topic) (λ t. t.partitions)
      (λ p. p.partition_index) (λ p. p.error_code)
      (λ p. some (partition_fetch_state p.high_watermark p.last_stable_offset))
      (for_fetch topic partition request_offset) topic partition response.responses

unfoldable pub process_list_offsets_response :
    ℤ → Text → ListOffsetsResponse → Result Error ListOffsetsResponsePartition
process_list_offsets_response partition topic response =
    checked_response (λ (t : ListOffsetsResponseTopic). t.name) (λ t. t.partitions)
      (λ p. p.partition_index) (λ p. p.error_code) (λ p. none) (for_partition topic partition) topic
      partition response.topics

unfoldable pub process_delete_records_response :
    Text → ℤ → DeleteRecordsResponse → Result Error DeleteResponsePartition
process_delete_records_response topic partition response =
    checked_response (λ (t : DeleteResponseTopic). t.name) (λ t. t.partitions)
      (λ p. p.partition_index) (λ p. p.error) (λ p. none) (for_partition topic partition) topic
      partition response.topics

-- `old_style_offsets` and `offset`: `unreachable!` when both are there or none is.
abbrev pub of_old_style : Option (List ℤ) → Result Error ℤ
of_old_style none = err (invalid_response null_offsets)
of_old_style (some (o ∷ [])) = ok o
of_old_style (some offsets) = err (invalid_response (expected_one_offset (length offsets)))

abbrev pub extract : Option (Option (List ℤ)) → Option ℤ → Result Error ℤ
extract (some offsets) none = of_old_style offsets
extract none (some offset) = ok offset
extract none none = panic
extract (some offsets) (some offset) = panic

unfoldable pub extract_offset : ListOffsetsResponsePartition → Result Error ℤ
extract_offset p = extract p.old_style_offsets p.offset
