-- ===== src/Client/Producer/Aggregator/Laws.antt =====
-- What the aggregator of src/client/producer/aggregator.rs promises the producer.
use rskafka.Prelude.{
  ℕ, zero, suc, ◌+◌, ◌≤◌, ◌≡◌, refl, arith, ltb, Bool-cases, inl, inr, some, List, [], ◌∷◌, ◌++◌,
  length, get_elem?, All,
}
use rskafka.Client.Records.{Record, approximate_size}
use rskafka.Client.Producer.Aggregator.{
  TryPush, no_capacity, aggregated, RecordAggregator, new, try_push, flush,
}

-- An input with what came of it.
abbrev pub Outcome : Type 0 → Type 0
Outcome Time = Record Time × TryPush (Record Time) ℕ

module _ {Time : Type 0} where
  -- Inputs that are pushed one after the other.
  abbrev pub push_all :
      RecordAggregator Time → List (Record Time) → List (Outcome Time) × RecordAggregator Time
  push_all a [] = ([], a)
  push_all a (r ∷ rs) =
      let (out, a') = try_push a r in let (outs, last) = push_all a' rs in ((r, out) ∷ outs, last)

  abbrev sizes : List (Record Time) → ℕ
  sizes [] = 0
  sizes (r ∷ rs) = approximate_size r + sizes rs

  sizes-append : (xs ys : List (Record Time)) → sizes (xs ++ ys) ≡ sizes xs + sizes ys
  sizes-append [] ys = omega arith
  sizes-append (x ∷ xs) ys = omega (arith, sizes-append xs ys)

  elem_of_front :
      (xs ys : List (Record Time)) (i : ℕ) (x : Record Time)
      → get_elem? xs i ≡ some x
      → get_elem? (xs ++ ys) i ≡ some x
  elem_of_front [] ys i x h = cc
  elem_of_front (y ∷ xs) ys zero x h = h
  elem_of_front (y ∷ xs) ys (suc i) x h = elem_of_front xs ys i x h

  elem_behind :
      (xs : List (Record Time)) (x : Record Time) → get_elem? (xs ++ x ∷ []) (length xs) ≡ some x
  elem_behind [] x = refl
  elem_behind (y ∷ xs) x = elem_behind xs x

  -- The size that is counted is that of the records, and is within the limit.
  pub record IsSound (a : RecordAggregator Time) : Type 0 where
    pub counted : a.batch_size ≡ sizes a.records
    pub within : a.batch_size ≤ a.max_batch_size

  try_push-IsSound :
      (a : RecordAggregator Time) (r : Record Time) → IsSound a → IsSound (try_push a r).1
  unfolding try_push
  try_push-IsSound a r h =
      elim (Bool-cases (ltb a.max_batch_size (a.batch_size + approximate_size r))) [
        | inl full ↦ rw full h
        | inr fits ↦
            let total : a.batch_size + approximate_size r ≡ sizes (a.records ++ r ∷ []) =
              omega (arith, h.counted, sizes-append a.records (r ∷ [])) in
            let small : a.batch_size + approximate_size r ≤ a.max_batch_size = ground arith in
            rw fits (record { counted = total; within = small })
      ]

  try_push-keeps :
      (a : RecordAggregator Time) (r x : Record Time) (i : ℕ)
      → get_elem? a.records i ≡ some x
      → get_elem? (try_push a r).1.records i ≡ some x
  unfolding try_push
  try_push-keeps a r x i h =
      elim (Bool-cases (ltb a.max_batch_size (a.batch_size + approximate_size r))) [
        | inl full ↦ rw full h
        | inr fits ↦ rw fits (elem_of_front a.records (r ∷ []) i x h)
      ]

  push_all-keeps :
      (a : RecordAggregator Time) (rs : List (Record Time)) (x : Record Time) (i : ℕ)
      → get_elem? a.records i ≡ some x
      → get_elem? (push_all a rs).1.records i ≡ some x
  push_all-keeps a [] x i h = h
  push_all-keeps a (r ∷ rs) x i h =
      push_all-keeps (try_push a r).1 rs x i (try_push-keeps a r x i h)

  -- A tag is the place of its record in the batch; a record without room is handed back.
  abbrev pub IsPlaced : List (Record Time) → Outcome Time → Type 0
  IsPlaced batch (r, aggregated tag) = get_elem? batch tag ≡ some r
  IsPlaced batch (r, no_capacity back) = back ≡ r

  push-IsPlaced :
      (a : RecordAggregator Time) (r : Record Time) (rs : List (Record Time))
      → IsPlaced (push_all (try_push a r).1 rs).1.records (r, (try_push a r).0)
  unfolding try_push
  push-IsPlaced a r rs =
      elim (Bool-cases (ltb a.max_batch_size (a.batch_size + approximate_size r))) [
        | inl full ↦ rw full refl
        | inr fits ↦ rw fits (push_all-keeps _ rs r (length a.records) (elem_behind a.records r))
      ]

  push_all-IsPlaced :
      (a : RecordAggregator Time) (rs : List (Record Time))
      → All (IsPlaced (push_all a rs).1.records) (push_all a rs).0
  push_all-IsPlaced a [] = tt
  push_all-IsPlaced a (r ∷ rs) = (push-IsPlaced a r rs, push_all-IsPlaced (try_push a r).1 rs)

  push_all-IsSound :
      (a : RecordAggregator Time) (rs : List (Record Time)) → IsSound a → IsSound (push_all a rs).1
  push_all-IsSound a [] h = h
  push_all-IsSound a (r ∷ rs) h = push_all-IsSound (try_push a r).1 rs (try_push-IsSound a r h)

  -- Records are pushed into a new aggregator one after the other, in any number, and flushed. The tag of
  -- each record that was taken is its place in the batch, whatever was pushed after it; a record
  -- without room is handed back as it is; and the batch is within the limit.
  pub tags_find_their_records :
      (max_batch_size : ℕ) (rs : List (Record Time))
      → All
          (IsPlaced (flush (push_all (new max_batch_size) rs).1).0)
          (push_all (new max_batch_size) rs).0
        × IsSound (push_all (new max_batch_size) rs).1
  unfolding new flush
  tags_find_their_records max_batch_size rs = (
    push_all-IsPlaced (new max_batch_size) rs,
    push_all-IsSound (new max_batch_size) rs (record { counted = refl; within = omega arith }),
  )
