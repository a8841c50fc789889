-- ===== src/Protocol/Record/Batches/Laws.antt =====
-- The batches of a message of src/protocol/primitives.rs, whole and cut off.
use rskafka.Prelude.{
  ℕ, zero, suc, ◌<◌, ◌≤◌, ◌≡◌, ◌≢◌, refl, ap, sym, ◌∙◌, arith, some, List, [], ◌∷◌, ◌++◌,
  append-nil, append_assoc, length, length-append, All,
}
use rskafka.Prelude.Result.{ok, err, panic, map_ok}
use rskafka.Protocol.Traits.{Writer, io, unexpected_eof, write_each}
use rskafka.Protocol.Traits.Laws.{
  Reads, RoundTrips, then_write-eq-ok, bind_err, read_exact_eof, RoundTrips-end,
}
use rskafka.Protocol.Primitives.Ints.{read_int64, read_int}
use rskafka.Protocol.Primitives.ByteStrings.{write_nullable_bytes}
use rskafka.Protocol.Primitives.ByteStrings.Laws.{nullable_bytes-RoundTrips}
use rskafka.Protocol.Record.{RecordBatch}
use rskafka.Protocol.Record.Entry.{with_buffer}
use rskafka.Protocol.Record.Batch.{Libraries, read_record_batch, write_record_batch}
use rskafka.Protocol.Record.Batch.Laws.{LibraryLaws}
use rskafka.Protocol.Record.Batch.Checked.{IsBatch, record_batch-CutTrips}
use rskafka.Protocol.Record.Batches.{read_batches, read_record_batches, write_record_batches}

module _ (lib : Libraries) (laws : LibraryLaws lib) where
  read_record_batch-nil : read_record_batch lib [] ≡ err (io unexpected_eof)
  unfolding read_record_batch read_int64 read_int
  read_record_batch-nil = bind_err _ _ [] (bind_err _ _ [] (read_exact_eof 8 [] (omega arith)))

  -- A batch is at least one byte.
  takes_some : (b : RecordBatch) (xs : List ℕ) → Reads (read_record_batch lib) xs b → 0 < length xs
  takes_some b [] h = cc (h.at [], read_record_batch-nil)
  takes_some b (x ∷ xs) h = omega arith

  one_more :
      (rounds : ℕ) (s : List ℕ) (b : RecordBatch) (rest : List ℕ)
      → 0 < length s
      → read_record_batch lib s ≡ ok (b, rest)
      → read_batches lib (suc rounds) s ≡ map_ok (λ bs. b ∷ bs) (read_batches lib rounds rest)
  unfolding read_batches
  one_more rounds [] b rest h e = absurd (omega arith)
  one_more rounds (x ∷ s) b rest h e = rw (e, read_batches) refl

  -- What stands behind the last whole batch and is read as no batch at all.
  record Ignored (tail : List ℕ) : Type 0 where
    pub at : (rounds : ℕ) → length tail ≤ rounds → read_batches lib rounds tail ≡ ok []

  batches-before :
      (bs : List RecordBatch) (xs tail : List ℕ) (rounds : ℕ)
      → All IsBatch bs
      → write_each (write_record_batch lib) bs ≡ ok xs
      → Ignored tail
      → length (xs ++ tail) ≤ rounds
      → read_batches lib rounds (xs ++ tail) ≡ ok bs
  unfolding write_each
  batches-before [] xs tail rounds h w t enough =
      let none : [] ≡ xs = cc w in rw (sym none) (t.at rounds (rw (sym none) at enough))
  batches-before (b ∷ bs) xs tail zero h w t enough =
      let (ys, zs, ey, ez, e) = then_write-eq-ok _ _ w in
      let reads = ((record_batch-CutTrips lib laws b h.0).trips).back ys ey in
      absurd (
        omega
          (arith, takes_some b ys reads, ap length e, length-append xs tail, length-append ys zs))
  batches-before (b ∷ bs) xs tail (suc rounds) h w t enough =
      let (ys, zs, ey, ez, e) = then_write-eq-ok _ _ w in
      let reads = ((record_batch-CutTrips lib laws b h.0).trips).back ys ey in
      let some = takes_some b ys reads in
      let parts : xs ++ tail ≡ ys ++ (zs ++ tail) =
        ap (λ t. t ++ tail) e ∙ append_assoc ys zs tail in
      let size : length (xs ++ tail) ≡ length (ys ++ (zs ++ tail)) = ap length parts in
      let sum = length-append ys (zs ++ tail) in
      ap (read_batches lib (suc rounds)) parts
      ∙ one_more rounds (ys ++ (zs ++ tail)) b (zs ++ tail) (omega (arith, some, sum))
          (reads.at (zs ++ tail))
      ∙ ap (map_ok (λ bs. b ∷ bs))
          (batches-before bs zs tail rounds h.1 ez t (omega (arith, some, size, sum, enough)))

  nil-Ignored : Ignored []
  unfolding read_batches
  nil-Ignored = record { at = nothing }
    where
      nothing : (rounds : ℕ) → 0 ≤ rounds → read_batches lib rounds [] ≡ ok []
      nothing zero h = refl
      nothing (suc rounds) h = refl

  cut-Ignored :
      (b : RecordBatch) (p q : List ℕ)
      → IsBatch b
      → write_record_batch lib b ≡ ok (p ++ q)
      → q ≢ []
      → Ignored p
  unfolding read_batches
  cut-Ignored b [] q h w n = nil-Ignored
  cut-Ignored b (x ∷ p) q h w n = record { at = ended }
    where
      ended : (rounds : ℕ) → length (x ∷ p) ≤ rounds → read_batches lib rounds (x ∷ p) ≡ ok []
      ended zero small = absurd (omega arith)
      ended (suc rounds) small =
          rw (((record_batch-CutTrips lib laws b h).cuts _ w).at (x ∷ p) q refl n, read_batches)
            refl

  -- Bytes that hold whole batches and then the beginning of another one, as they come when a fetch hits
  -- its limit, are read as the whole batches: the rest is dropped, and there is no error. There is as
  -- much fuel as the loop needs.
  pub cut_off_batch_is_dropped :
      (bs : List RecordBatch) (b : RecordBatch) (xs p q : List ℕ)
      → All IsBatch bs
      → IsBatch b
      → write_each (write_record_batch lib) bs ≡ ok xs
      → write_record_batch lib b ≡ ok (p ++ q)
      → q ≢ []
      → read_batches lib (length (xs ++ p)) (xs ++ p) ≡ ok bs
  cut_off_batch_is_dropped bs b xs p q h hb w wb n =
      batches-before bs xs p (length (xs ++ p)) h w (cut-Ignored b p q hb wb n) (omega arith)

  whole_batches :
      (bs : List RecordBatch) (xs : List ℕ)
      → All IsBatch bs
      → write_each (write_record_batch lib) bs ≡ ok xs
      → read_batches lib (length xs) xs ≡ ok bs
  whole_batches bs xs h w =
      let e = append-nil xs in
      ap (λ s. read_batches lib (length s) s) (sym e)
      ∙ batches-before bs xs [] (length (xs ++ [])) h w nil-Ignored (omega arith)

  -- The batches of a message, with fields in the range of their types, that are written come back in
  -- their order, and the input after them is untouched.
  pub record_batches_round_trip :
      (bs : List RecordBatch)
      → All IsBatch bs
      → RoundTrips (read_record_batches lib) (write_record_batches lib bs) bs
  unfolding read_record_batches write_record_batches
  record_batches_round_trip bs h = buffered (write_each (write_record_batch lib) bs) refl
    where
      buffered :
          (w : Writer)
          → write_each (write_record_batch lib) bs ≡ w
          → RoundTrips
              (read_record_batches lib)
              (with_buffer w λ buf. write_nullable_bytes (some buf))
              bs
      buffered (ok xs) e =
          RoundTrips-end _ bs (nullable_bytes-RoundTrips (some xs))
            (λ rest. rw (whole_batches bs xs h e) refl)
      buffered (err x) e = record { back = λ bs q. cc }
      buffered panic e = record { back = λ bs q. cc }
