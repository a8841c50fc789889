-- ===== src/Client/Partition/Responses/Offsets.antt =====
-- The `unreachable!` of `extract_offset` of src/client/partition.rs is not reached: of a response that was
-- read, a partition has the offsets of one of both styles.
use rskafka.Prelude.{
  ℕ, zero, suc, ◌≡◌, ◌≢◌, refl, subst, Bool, true, false, not, is_some, Option, none, some, List,
  [], ◌∷◌, All,
}
use rskafka.Prelude.Int.{ℤ, pos, negsuc}
use rskafka.Prelude.Result.{ok, panic}
use rskafka.Protocol.Traits.{Reader}
use rskafka.Protocol.Traits.Yields.{
  Yields, any-Yields, pure-Yields, fail-Yields, bind-Yields, read_times-Yields,
}
use rskafka.Protocol.Primitives.Text.Utf8.{Text}
use rskafka.Protocol.ApiVersion.{ApiVersion, at_least, at_most}
use rskafka.Protocol.Messages.Fields.{read_if, read_asserting, or_default}
use rskafka.Protocol.Messages.Arrays.{array_of_len, read_versioned_array}
use rskafka.Protocol.Messages.ListOffsets.{
  ListOffsetsResponse, ListOffsetsResponseTopic, ListOffsetsResponsePartition,
  read_list_offsets_partition, read_list_offsets_topic, read_list_offsets_response,
}
use rskafka.Client.Partition.Responses.{
  process_list_offsets_response, of_old_style, extract, extract_offset,
}
use rskafka.Client.Partition.Responses.Laws.{ListedFor, response_is_checked}

if-Yields : {A : Type 0} (r : Reader A) (b : Bool) → Yields (λ o. is_some o ≡ b) (read_if b r)
if-Yields r true = bind-Yields _ (any-Yields r) (λ a u. pure-Yields (λ o. is_some o ≡ true) _ refl)
if-Yields r false = pure-Yields (λ o. is_some o ≡ false) _ refl

asserting-Yields :
    {A : Type 0} {P : A → Type 0} {r : Reader A} (b : Bool)
    → Yields P r
    → Yields P (read_asserting b r)
asserting-Yields true h = h
asserting-Yields false h = record { on = λ s a rest e. cc }

module _ {A : Type 0} (P : A → Type 0) {read : Reader A} (h : Yields P read) where
  elements-Yields : (len : ℤ) → Yields (λ xs. All P (or_default [] xs)) (array_of_len read len)
  elements-Yields (negsuc zero) = pure-Yields (λ xs. All P (or_default [] xs)) none tt
  elements-Yields (negsuc (suc n)) = fail-Yields (λ xs. All P (or_default [] xs)) _
  elements-Yields (pos len) =
      bind-Yields _ (read_times-Yields len h)
        (λ xs q. pure-Yields (λ xs. All P (or_default [] xs)) (some xs) q)

  versioned_array-Yields : Yields (λ xs. All P (or_default [] xs)) (read_versioned_array read)
  unfolding read_versioned_array
  versioned_array-Yields = bind-Yields _ (any-Yields _) (λ len u. elements-Yields len)

module _ (v : ApiVersion) where
  HasOneStyle : ListOffsetsResponsePartition → Type 0
  HasOneStyle p =
      (is_some p.old_style_offsets ≡ not (at_least v 1)) × (is_some p.offset ≡ at_least v 1)

  HaveOneStyle : ListOffsetsResponseTopic → Type 0
  HaveOneStyle t = All HasOneStyle t.partitions

  partition-Yields : Yields HasOneStyle (read_list_offsets_partition v)
  unfolding read_list_offsets_partition HasOneStyle
  partition-Yields = asserting-Yields (at_most v 3) (
      bind-Yields _ (any-Yields _) λ index u. bind-Yields _ (any-Yields _) λ error u.
        bind-Yields _ (if-Yields _ (not (at_least v 1))) λ old_style is_old.
          bind-Yields _ (any-Yields _) λ timestamp u.
            bind-Yields _ (if-Yields _ (at_least v 1))
              λ offset is_new. pure-Yields HasOneStyle _ (is_old, is_new))

  topic-Yields : Yields HaveOneStyle (read_list_offsets_topic v)
  unfolding read_list_offsets_topic HaveOneStyle
  topic-Yields = asserting-Yields (at_most v 3) (
      bind-Yields _ (any-Yields _) λ name u.
        bind-Yields _ (versioned_array-Yields HasOneStyle partition-Yields)
          λ partitions styles. pure-Yields HaveOneStyle _ styles)

  response-Yields :
      Yields (λ (r : ListOffsetsResponse). All HaveOneStyle r.topics) (read_list_offsets_response v)
  unfolding read_list_offsets_response
  response-Yields = asserting-Yields (at_most v 3) (
      bind-Yields _ (any-Yields _) λ throttle u.
        bind-Yields _ (versioned_array-Yields HaveOneStyle topic-Yields) λ topics styles.
          pure-Yields (λ (r : ListOffsetsResponse). All HaveOneStyle r.topics) _ styles)

  old_style-answers : (o : Option (List ℤ)) → of_old_style o ≢ panic
  old_style-answers none e = cc
  old_style-answers (some []) e = cc
  old_style-answers (some (o ∷ [])) e = cc
  old_style-answers (some (o ∷ o' ∷ os)) e = cc

  extract-answers :
      (b : Bool) (old_style : Option (Option (List ℤ))) (offset : Option ℤ)
      → is_some old_style ≡ not b
      → is_some offset ≡ b
      → extract old_style offset ≢ panic
  extract-answers true none (some offset) h k e = cc
  extract-answers false (some o) none h k e = old_style-answers o e
  extract-answers true none none h k e = cc
  extract-answers false none none h k e = cc
  extract-answers true (some o) (some offset) h k e = cc
  extract-answers false (some o) (some offset) h k e = cc
  extract-answers true (some o) none h k e = cc
  extract-answers false none (some offset) h k e = cc

  -- Of a response that was read in some version and accepted for a partition, an offset is taken or an
  -- error returned: the branch for offsets of both styles, or of none, is not reached.
  pub listed_offset_is_taken :
      (bytes rest : List ℕ) (r : ListOffsetsResponse) (topic : Text) (partition : ℤ)
      (p : ListOffsetsResponsePartition)
      → read_list_offsets_response v bytes ≡ ok (r, rest)
      → process_list_offsets_response partition topic r ≡ ok p
      → extract_offset p ≢ panic
  unfolding extract_offset process_list_offsets_response HasOneStyle HaveOneStyle
  listed_offset_is_taken bytes rest r topic partition p reads accepted =
      let listed : ListedFor topic partition r p =
        (response_is_checked _ _ _ _ _ _ topic partition r.topics p).0 accepted in
      let topics =
        subst (All HaveOneStyle) listed.one_topic (response-Yields.on bytes r rest reads) in
      let partitions = subst (All HasOneStyle) listed.one_partition topics.0 in
      extract-answers (at_least v 1) p.old_style_offsets p.offset partitions.0.0 partitions.0.1
