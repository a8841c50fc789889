-- ===== src/Client/Consumer/Deliveries.antt =====
-- What a stream of src/client/consumer.rs that starts at an offset delivers.
use rskafka.Prelude.{
  ℕ, zero, suc, ◌≡◌, refl, subst, false, Bool-cases, inl, inr, Option-cases, Option, none, some,
  List, [], ◌∷◌, All,
}
use rskafka.Prelude.Int.{ℤ, pos, ◌+ℤ◌, ◌≤ℤ◌}
use rskafka.Prelude.Result.{Result, ok, err, panic}
use rskafka.Client.Records.{RecordAndOffset}
use rskafka.Client.Consumer.{
  Error, at_offset, FetchClient, FetchResultOk, StreamConsumer, Polled, item, failed, ended,
  pending, crashed, build, fetch, retries, ready, after_fetch, fetching, poll_next,
}
use rskafka.Client.Consumer.Order.{Chain, Ascends, self-le}
use rskafka.Client.Consumer.Fetches.{
  offset_of, IsPartition, From, IsFrom, fetch-at, From-offset, after_fetch-IsFrom,
}

module _ {Time : Type 0} where
  -- The stream before a poll: it has ended, it holds a record, or it needs a fetch.
  data Readiness (c : StreamConsumer Time) : Type 0 where
    over : ready c ≡ some (ended, c) → Readiness c
    holds :
        (x : RecordAndOffset Time) (rest : List (RecordAndOffset Time))
        → c.buffer ≡ x ∷ rest
        → ready c ≡ some (item x c.last_high_watermark, record c { buffer = rest })
        → Readiness c
    empty : c.buffer ≡ [] → ready c ≡ none → Readiness c

  look_at :
      (c : StreamConsumer Time) (buf : List (RecordAndOffset Time)) → c.buffer ≡ buf → Readiness c
  unfolding ready
  look_at c buf e = elim (Bool-cases c.terminated) [
    | inl t ↦ over (rw t refl)
    | inr t ↦ held buf e t
  ]
    where
      held :
          (buf : List (RecordAndOffset Time)) → c.buffer ≡ buf → c.terminated ≡ false → Readiness c
      held [] e t = empty e (rw (t, e) refl)
      held (x ∷ rest) e t = holds x rest e (simp (t, e) refl)

  holds-From :
      (lo x : ℤ) (next : Option ℤ) (y : RecordAndOffset Time)
      (rest buf : List (RecordAndOffset Time))
      → buf ≡ y ∷ rest
      → From lo x next buf
      → (lo ≤ℤ y.offset) × From (y.offset +ℤ pos 1) x next rest
  holds-From lo x none y rest buf e h = cc (e, h.0)
  holds-From lo x (some hi) y rest buf e h = subst (λ b. Chain lo b hi) e h

  abbrev Continues : ℤ → ℤ → Polled Time × StreamConsumer Time × List (FetchClient Time) → Type 0
  Continues lo x (item r watermark, c, ks) =
      (lo ≤ℤ r.offset) × IsFrom (r.offset +ℤ pos 1) x c × All IsPartition ks
  Continues lo x (failed e, c, ks) = IsFrom lo x c × All IsPartition ks
  Continues lo x (ended, c, ks) = IsFrom lo x c × All IsPartition ks
  Continues lo x (pending, c, ks) = IsFrom lo x c × All IsPartition ks
  Continues lo x (crashed, c, ks) = IsFrom lo x c × All IsPartition ks

  stopped-Continues :
      (lo x : ℤ) (r : Result Error (FetchResultOk Time)) (c : StreamConsumer Time) (p : Polled Time)
      (after : StreamConsumer Time) (ks : List (FetchClient Time))
      → (after_fetch r c).0 ≡ some p
      → IsFrom lo x after
      → All IsPartition ks
      → Continues lo x (p, after, ks)
  unfolding after_fetch
  stopped-Continues lo x (ok r) c p after ks e h k = cc
  stopped-Continues lo x (err y) c p after ks e h k = elim (Bool-cases (retries y c.start_offset)) [
    | inl again ↦ cc (rw again at e)
    | inr stop ↦
        let same : some (failed y) ≡ some p = rw stop at e in
        let out : failed y ≡ p = cc same in subst (λ p. Continues lo x (p, after, ks)) out (h, k)
  ]
  stopped-Continues lo x panic c p after ks e h k =
      let out : crashed ≡ p = cc e in subst (λ p. Continues lo x (p, after, ks)) out (h, k)

  poll-Continues :
      (ks : List (FetchClient Time)) (lo x : ℤ) (c : StreamConsumer Time)
      → All IsPartition ks
      → IsFrom lo x c
      → Continues lo x (poll_next ks c)
  unfolding poll_next
  poll-Continues [] lo x c k h = elim (look_at c c.buffer refl) [
    | over e ↦ rw (e, poll_next) (h, k)
    | holds y rest e q ↦
        let (le, held) = holds-From lo x c.next_offset y rest c.buffer e h.held in
        rw (q, poll_next) (le, record { starts = h.starts; held = held }, k)
    | empty e q ↦ rw (q, poll_next) (h, k)
  ]
  poll-Continues (client ∷ ks) lo x c k h = elim (look_at c c.buffer refl) [
    | over e ↦ rw (e, poll_next) (h, k)
    | holds y rest e q ↦
        let (le, held) = holds-From lo x c.next_offset y rest c.buffer e h.held in
        rw (q, poll_next) (le, record { starts = h.starts; held = held }, k)
    | empty e q ↦
        let r = fetch client c.next_offset c.start_offset in
        let o = offset_of x c.next_offset in
        let next : IsFrom lo x (after_fetch r (fetching c)).1 =
          rw (fetch-at client c.next_offset c.start_offset x h.starts) (
            after_fetch-IsFrom lo x o (client.fetch_records o) (fetching c) h.starts e
              (From-offset lo x c.next_offset c.buffer e h.held) h.held (k.0.answers o)) in
        elim (Option-cases (after_fetch r (fetching c)).0) [
          | inl goes_on ↦
              rw (q, goes_on, poll_next)
                (poll-Continues ks lo x (after_fetch r (fetching c)).1 k.1 next)
          | inr (p, stops) ↦
              rw (q, stops, poll_next) (stopped-Continues lo x r (fetching c) p _ ks stops next k.1)
        ]
  ]

  abbrev prepend : Polled Time → List (RecordAndOffset Time) → List (RecordAndOffset Time)
  prepend (item r watermark) rest = r ∷ rest
  prepend (failed e) rest = rest
  prepend ended rest = rest
  prepend pending rest = rest
  prepend crashed rest = rest

  -- What the first `n` polls deliver.
  abbrev pub polls : ℕ → List (FetchClient Time) → StreamConsumer Time → List (RecordAndOffset Time)
  polls zero ks c = []
  polls (suc n) ks c =
      let (p, c', left) = poll_next ks c in let rest = polls n left c' in prepend p rest

  prepend-Ascends :
      (lo x : ℤ) (p : Polled Time) (c : StreamConsumer Time) (ks : List (FetchClient Time))
      (rest : List (RecordAndOffset Time))
      → Continues lo x (p, c, ks)
      → ((lo : ℤ) → IsFrom lo x c → All IsPartition ks → Ascends lo rest)
      → Ascends lo (prepend p rest)
  prepend-Ascends lo x (item r w) c ks rest h go = (h.0, go (r.offset +ℤ pos 1) h.1 h.2)
  prepend-Ascends lo x (failed e) c ks rest h go = go lo h.0 h.1
  prepend-Ascends lo x ended c ks rest h go = go lo h.0 h.1
  prepend-Ascends lo x pending c ks rest h go = go lo h.0 h.1
  prepend-Ascends lo x crashed c ks rest h go = go lo h.0 h.1

  polls-Ascends :
      (n : ℕ) (ks : List (FetchClient Time)) (lo x : ℤ) (c : StreamConsumer Time)
      → All IsPartition ks
      → IsFrom lo x c
      → Ascends lo (polls n ks c)
  polls-Ascends zero ks lo x c k h = tt
  polls-Ascends (suc n) ks lo x c k h =
      let out = poll_next ks c in
      prepend-Ascends lo x out.0 out.1 out.2 (polls n out.2 out.1) (poll-Continues ks lo x c k h)
        (λ lo h k. polls-Ascends n out.2 lo x out.1 k h)

  -- A stream that is built to start at an offset delivers records from that offset on, each at a higher
  -- offset than the one before, so that none is delivered twice, however often it is polled. The
  -- partition answers each fetch with an error or with records from the fetched offset on, in any
  -- order, none at the greatest `i64` and no two of them at one offset, and may answer differently each
  -- time.
  pub deliveries_ascend :
      (n : ℕ) (ks : List (FetchClient Time)) (x : ℤ)
      → All IsPartition ks
      → Ascends x (polls n ks (build (at_offset x)))
  unfolding build
  deliveries_ascend n ks x k =
      polls-Ascends n ks x x (build (at_offset x)) k
        (record { starts = refl; held = (refl, self-le x) })
