-- ===== src/Client/Partition/Records/Laws.antt =====
-- What `extract_records` of src/client/partition.rs takes from a fetch.
use rskafka.Prelude.{
  ◌≡◌, refl, ap, sym, ◌∙◌, arith, Bool-cases, inl, inr, if◌then◌else◌, Option, none, some, subst,
  List, [], ◌∷◌, ◌++◌, append_assoc, append-nil, map, All,
}
use rskafka.Prelude.Int.{ℤ, ◌≤ℤ◌, ltb_ℤ}
use rskafka.Prelude.Result.{Result, Result-cases, ok, err, panic, ◌>>=◌, map_ok}
use rskafka.Protocol.Record.{RecordBatch, ControlBatchOrRecords, control_batch, records}
use rskafka.Protocol.Record as Protocol
use rskafka.Client.Records.Headers.Laws.{Collects, collect-Collects}
use rskafka.Client.Records.{RecordAndOffset}
use rskafka.Client.Error.{
  Error, InvalidResponse, invalid_response, timestamp_overflow, not_a_timestamp,
  ambiguous_timestamp,
}
use rskafka.Client.Partition.Records.{
  LocalResult, no_time, single, ambiguous, local_time, checked_time, checked_add_64, time_of,
  offset_of, header_pairs, converted, extract_each, extract_batch, extract_from, extract_records,
}

-- The records of all batches, each with its batch, but for control batches.
abbrev pub records_of : RecordBatch → ControlBatchOrRecords → List (RecordBatch × Protocol.Record)
records_of b (control_batch c) = []
records_of b (records rs) = map (λ r. (b, r)) rs

abbrev pub all_records : List RecordBatch → List (RecordBatch × Protocol.Record)
all_records [] = []
all_records (b ∷ bs) = records_of b b.body.records ++ all_records bs

-- Those from an offset on.
abbrev pub from_offset :
    ℤ → List (RecordBatch × Protocol.Record) → List (RecordBatch × Protocol.Record)
from_offset o [] = []
from_offset o ((b, r) ∷ rest) =
    if ltb_ℤ (offset_of b r) o then from_offset o rest else (b, r) ∷ from_offset o rest

module _ {Time : Type 0} (timestamp_millis_opt : ℤ → LocalResult Time) where
  -- Each of them converted, unless the time of one is invalid: then the first such error.
  abbrev pub convert_all :
      List (RecordBatch × Protocol.Record) → Result Error (List (RecordAndOffset Time))
  convert_all [] = ok []
  convert_all ((b, r) ∷ rest) = time_of timestamp_millis_opt b r >>= λ time.
      map_ok (λ xs. converted b r time ∷ xs) (convert_all rest)

  module _ (o : ℤ) where
    abbrev run :
        List (RecordBatch × Protocol.Record)
        → List (RecordAndOffset Time)
        → Result Error (List (RecordAndOffset Time))
    run [] taken = ok taken
    run ((b, r) ∷ rest) taken =
        let kept = time_of timestamp_millis_opt b r >>= λ time.
        run rest (taken ++ converted b r time ∷ []) in
        let skipped = run rest taken in if ltb_ℤ (offset_of b r) o then skipped else kept

    extract_each-run :
        (b : RecordBatch) (rs : List Protocol.Record) (taken : List (RecordAndOffset Time))
        → extract_each timestamp_millis_opt o b rs taken ≡ run (map (λ r. (b, r)) rs) taken
    unfolding extract_each
    extract_each-run b [] taken = refl
    extract_each-run b (r ∷ rs) taken = λ i.
        if ltb_ℤ (offset_of b r) o
        then extract_each-run b rs taken i
        else (time_of timestamp_millis_opt b r >>= λ time.
            extract_each-run b rs (taken ++ converted b r time ∷ []) i)

    extract_batch-run :
        (b : RecordBatch) (rs : ControlBatchOrRecords) (taken : List (RecordAndOffset Time))
        → extract_batch timestamp_millis_opt o b rs taken ≡ run (records_of b rs) taken
    extract_batch-run b (control_batch c) taken = refl
    extract_batch-run b (records rs) taken = extract_each-run b rs taken

    run-append :
        (xs ys : List (RecordBatch × Protocol.Record)) (taken : List (RecordAndOffset Time))
        → run (xs ++ ys) taken ≡ (run xs taken >>= run ys)
    run-append [] ys taken = refl
    run-append ((b, r) ∷ xs) ys taken = elim (Bool-cases (ltb_ℤ (offset_of b r) o)) [
      | inl skip ↦ rw skip (run-append xs ys taken)
      | inr keep ↦ rw keep (elim (Result-cases (time_of timestamp_millis_opt b r)) [
        | inl (time, e) ↦ rw e (run-append xs ys (taken ++ converted b r time ∷ []))
        | inr (inl (x, e)) ↦ rw e
        | inr (inr e) ↦ rw e
      ])
    ]

    extract_from-run :
        (bs : List RecordBatch) (taken : List (RecordAndOffset Time))
        → extract_from timestamp_millis_opt o bs taken ≡ run (all_records bs) taken
    unfolding extract_from
    extract_from-run [] taken = refl
    extract_from-run (b ∷ bs) taken =
        (λ i. extract_batch-run b b.body.records taken i >>= λ t. extract_from-run bs t i)
        ∙ sym (run-append (records_of b b.body.records) (all_records bs) taken)

    map_ok-push :
        (taken : List (RecordAndOffset Time)) (x : RecordAndOffset Time)
        (r : Result Error (List (RecordAndOffset Time)))
        → map_ok (λ ys. (taken ++ x ∷ []) ++ ys) r
          ≡ map_ok (λ ys. taken ++ ys) (map_ok (λ ys. x ∷ ys) r)
    map_ok-push taken x (ok ys) = ap ok (append_assoc taken (x ∷ []) ys)
    map_ok-push taken x (err e) = refl
    map_ok-push taken x panic = refl

    run-convert_all :
        (xs : List (RecordBatch × Protocol.Record)) (taken : List (RecordAndOffset Time))
        → run xs taken ≡ map_ok (λ ys. taken ++ ys) (convert_all (from_offset o xs))
    run-convert_all [] taken = ap ok (sym (append-nil taken))
    run-convert_all ((b, r) ∷ xs) taken = elim (Bool-cases (ltb_ℤ (offset_of b r) o)) [
      | inl skip ↦ rw skip (run-convert_all xs taken)
      | inr keep ↦ rw keep (elim (Result-cases (time_of timestamp_millis_opt b r)) [
        | inl (time, e) ↦ rw e (
            run-convert_all xs (taken ++ converted b r time ∷ [])
            ∙ map_ok-push taken (converted b r time) (convert_all (from_offset o xs)))
        | inr (inl (x, e)) ↦ rw e
        | inr (inr e) ↦ rw e
      ])
    ]

    map_ok_nil : (r : Result Error (List (RecordAndOffset Time))) → map_ok (λ ys. [] ++ ys) r ≡ r
    map_ok_nil (ok ys) = refl
    map_ok_nil (err e) = refl
    map_ok_nil panic = refl

    loops_are_filters :
        (bs : List RecordBatch)
        → extract_records timestamp_millis_opt o bs ≡ convert_all (from_offset o (all_records bs))
    unfolding extract_records
    loops_are_filters bs =
        extract_from-run bs []
        ∙ run-convert_all (all_records bs) []
        ∙ map_ok_nil (convert_all (from_offset o (all_records bs)))

    -- The loops over batches and records, which skip records before the offset that was asked for and
    -- end at the first time stamp that is invalid, give what converting the records from that offset
    -- on gives: all of them, in the order of the batches, or the first error. The headers of a record
    -- that is converted are in the order of their keys, each with the value of the last header of the
    -- record with that key.
    pub extract_records_is_filtered :
        (bs : List RecordBatch)
        → (extract_records timestamp_millis_opt o bs ≡ convert_all (from_offset o (all_records bs)))
          × ((b : RecordBatch) (r : Protocol.Record) (t : Time)
              → Collects (header_pairs r.headers) (converted b r t).content.headers)
    extract_records_is_filtered bs =
        (loops_are_filters bs, λ b r t. collect-Collects (header_pairs r.headers))

-- A result with `P`, or an invalid response.
abbrev pub Yields : {A : Type 0} → (A → Type 0) → Result Error A → Type 0
Yields P (ok a) = P a
Yields P (err e) = (x : InvalidResponse) × (e ≡ invalid_response x)
Yields P panic = ⊥

module _ {Time : Type 0} (timestamp_millis_opt : ℤ → LocalResult Time) where
  local_time-Yields :
      (ms : ℤ) (t : LocalResult Time)
      → Yields (λ t. Unit {0}) (local_time timestamp_millis_opt ms t)
  local_time-Yields ms no_time = (not_a_timestamp ms, refl)
  local_time-Yields ms (single t) = tt
  local_time-Yields ms (ambiguous a b) = (ambiguous_timestamp ms, refl)

  time_of-Yields :
      (b : RecordBatch) (r : Protocol.Record)
      → Yields (λ t. Unit {0}) (time_of timestamp_millis_opt b r)
  unfolding time_of
  time_of-Yields b r = go (checked_add_64 b.body.first_timestamp r.timestamp_delta)
    where
      go :
          (t : Option ℤ)
          → Yields
              (λ t. Unit {0})
              (checked_time timestamp_millis_opt b.body.first_timestamp r.timestamp_delta t)
      go none = (timestamp_overflow b.body.first_timestamp r.timestamp_delta, refl)
      go (some ms) = local_time-Yields ms (timestamp_millis_opt ms)

  module _ (o : ℤ) where
    abbrev pub AreFrom : List (RecordAndOffset Time) → Type 0
    AreFrom = All (λ x. o ≤ℤ x.offset)

    push-Yields :
        (x : RecordAndOffset Time) (r : Result Error (List (RecordAndOffset Time)))
        → o ≤ℤ x.offset
        → Yields AreFrom r
        → Yields AreFrom (map_ok (λ xs. x ∷ xs) r)
    push-Yields x (ok xs) h k = (h, k)
    push-Yields x (err e) h k = k
    push-Yields x panic h k = k

    time-Yields :
        (b : RecordBatch) (r : Protocol.Record) (t : Result Error Time)
        (rest : Result Error (List (RecordAndOffset Time)))
        → o ≤ℤ offset_of b r
        → Yields (λ t. Unit {0}) t
        → Yields AreFrom rest
        → Yields AreFrom (t >>= λ time. map_ok (λ xs. converted b r time ∷ xs) rest)
    time-Yields b r (ok time) rest h t k = push-Yields (converted b r time) rest h k
    time-Yields b r (err e) rest h t k = t
    time-Yields b r panic rest h t k = t

    convert_all-Yields :
        (xs : List (RecordBatch × Protocol.Record))
        → Yields AreFrom (convert_all timestamp_millis_opt (from_offset o xs))
    convert_all-Yields [] = tt
    convert_all-Yields ((b, r) ∷ xs) = elim (Bool-cases (ltb_ℤ (offset_of b r) o)) [
      | inl skip ↦ rw skip (convert_all-Yields xs)
      | inr keep ↦
          let le : o ≤ℤ offset_of b r = ground arith in
          rw keep (
            time-Yields b r (time_of timestamp_millis_opt b r)
              (convert_all timestamp_millis_opt (from_offset o xs)) le (time_of-Yields b r)
              (convert_all-Yields xs))
    ]

    pub extract_records-Yields :
        (bs : List RecordBatch) → Yields AreFrom (extract_records timestamp_millis_opt o bs)
    extract_records-Yields bs =
        subst (Yields AreFrom) (sym (extract_records_is_filtered timestamp_millis_opt o bs).0)
          (convert_all-Yields (all_records bs))
