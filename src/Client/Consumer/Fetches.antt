-- ===== src/Client/Consumer/Fetches.antt =====
-- What a fetch of a stream of src/client/consumer.rs that starts at an offset adds to its buffer.
use rskafka.Prelude.{◌≡◌, refl, subst, inl, inr, Option-cases, Option, none, some, List, [], All}
use rskafka.Prelude.Int.{ℤ, ◌≤ℤ◌}
use rskafka.Prelude.Result.{Result, ok, err, panic, ◌>>=◌}
use rskafka.Client.Records.{RecordAndOffset}
use rskafka.Client.Consumer.{
  Error, StartOffset, at_offset, FetchClient, FetchResultOk, StreamConsumer, resolve, resolve_start,
  fetch, sort_by_offset, behind_last, on_records, retries, after_fetch,
}
use rskafka.Client.Consumer.Order.{
  Chain, AreDistinct, HasNext, sort-All, sort-Ascends, behind_last-Chain, Chain-weaken,
}

-- The offset of the next fetch, of a stream that starts at `x`.
abbrev pub offset_of : ℤ → Option ℤ → ℤ
offset_of x none = x
offset_of x (some hi) = hi

module _ {Time : Type 0} where
  -- A partition answers a fetch with records from the offset on, none of them at the greatest `i64` and
  -- no two of them at one offset, in any order.
  abbrev pub Answers : ℤ → Result Error (List (RecordAndOffset Time) × ℤ) → Type 0
  Answers o (ok (rs, watermark)) = All (λ x. o ≤ℤ x.offset) rs × All HasNext rs × AreDistinct rs
  Answers o (err e) = Unit
  Answers o panic = Unit

  pub record IsPartition (k : FetchClient Time) : Type 0 where
    pub answers : (o : ℤ) → Answers o (k.fetch_records o)

  abbrev pub From : ℤ → ℤ → Option ℤ → List (RecordAndOffset Time) → Type 0
  From lo x none buf = (buf ≡ []) × (lo ≤ℤ x)
  From lo x (some hi) buf = Chain lo buf hi

  -- What the stream holds is from `lo` on.
  pub record IsFrom (lo x : ℤ) (c : StreamConsumer Time) : Type 0 where
    pub starts : c.start_offset ≡ at_offset x
    pub held : From lo x c.next_offset c.buffer

  abbrev pub with_offset :
      ℤ → Result Error (List (RecordAndOffset Time) × ℤ) → Result Error (FetchResultOk Time)
  with_offset o answer =
      answer >>= λ p. ok (record { records_and_offsets = p.0; watermark = p.1; used_offset = o })

  pub fetch-at :
      (k : FetchClient Time) (next : Option ℤ) (start : StartOffset) (x : ℤ)
      → start ≡ at_offset x
      → fetch k next start ≡ with_offset (offset_of x next) (k.fetch_records (offset_of x next))
  unfolding fetch resolve resolve_start
  fetch-at k (some hi) start x e = refl
  fetch-at k none start x e = rw e refl

  pub From-offset :
      (lo x : ℤ) (next : Option ℤ) (buf : List (RecordAndOffset Time))
      → buf ≡ []
      → From lo x next buf
      → lo ≤ℤ offset_of x next
  From-offset lo x none buf e h = h.1
  From-offset lo x (some hi) buf e h = subst (λ b. Chain lo b hi) e h

  on_records-IsFrom :
      (lo x o watermark : ℤ) (rs : List (RecordAndOffset Time)) (c : StreamConsumer Time)
      → c.start_offset ≡ at_offset x
      → c.buffer ≡ []
      → lo ≤ℤ o
      → All (λ r. o ≤ℤ r.offset) rs
      → All HasNext rs
      → AreDistinct rs
      → IsFrom lo x (
          on_records
            (record { records_and_offsets = rs; watermark = watermark; used_offset = o })
            c)
  unfolding on_records
  on_records-IsFrom lo x o watermark rs c s e h all n d =
      elim (Option-cases (behind_last (sort_by_offset rs))) [
        | inl q ↦ rw (q, on_records) (record { starts = s; held = rw e h })
        | inr (hi, q) ↦
            let chain = Chain-weaken (sort_by_offset rs) lo o hi h (
              behind_last-Chain (sort_by_offset rs) o hi (sort-Ascends rs o all d)
                (sort-All HasNext rs n) q) in
            rw (q, on_records) (record { starts = s; held = rw e chain })
      ]

  pub after_fetch-IsFrom :
      (lo x o : ℤ) (answer : Result Error (List (RecordAndOffset Time) × ℤ))
      (c : StreamConsumer Time)
      → c.start_offset ≡ at_offset x
      → c.buffer ≡ []
      → lo ≤ℤ o
      → From lo x c.next_offset c.buffer
      → Answers o answer
      → IsFrom lo x (after_fetch (with_offset o answer) c).1
  unfolding after_fetch retries
  after_fetch-IsFrom lo x o (ok (rs, w)) c s e h held a =
      on_records-IsFrom lo x o w rs c s e h a.0 a.1 a.2
  after_fetch-IsFrom lo x o (err y) c s e h held a = rw s (record { starts = refl; held = held })
  after_fetch-IsFrom lo x o panic c s e h held a = record { starts = s; held = held }
