-- ===== src/Protocol/Record/Batch/Checked.antt =====
-- The length and the checksum of a record batch in src/protocol/record.rs, and what is read of a batch
-- that was cut off.
use rskafka.Prelude.{
  ℕ, ◌+◌, ◌-◌, ◌*◌, ◌^◌, ◌==◌, ◌<◌, ◌≡◌, refl, ap, sym, subst, ◌∙◌, arith, true, false, ltb, List,
  length,
}
use rskafka.Prelude.Int.{ℤ, pos, InRange, to_word, from_word}
use rskafka.Prelude.Result.{ok, err, panic}
use rskafka.Protocol.Traits.{Writer, WriteError, ◌then_write◌, write_all}
use rskafka.Protocol.Traits.Laws.{RoundTrips, bind_ok}
use rskafka.Protocol.Traits.{read_exact}
use rskafka.Protocol.VecBuilder.{read_vec}
use rskafka.Protocol.VecBuilder.Refinement.{read_vec-read_exact}
use rskafka.Protocol.Primitives.Ints.{
  half8, read_int, write_int, to_be_bytes, read_int8, read_int32, read_int64,
}
use rskafka.Protocol.Primitives.Ints.Laws.{int-RoundTrips, length-to_be_bytes}
use rskafka.Protocol.Primitives.Ints.{half32, half64, write_int8, write_int32, write_int64}
use rskafka.Protocol.Primitives.Lengths.{with_length, read_vec-RoundTrips}
use rskafka.Protocol.Record.{RecordBatch}
use rskafka.Protocol.Record.Entry.{with_buffer}
use rskafka.Protocol.Record.Batch.{
  Libraries, read_all, read_record_batch_body, write_record_batch_body, before_data,
  read_record_batch, write_record_batch,
}
use rskafka.Protocol.Record.Batch.Whole.{WholeTrips}
use rskafka.Protocol.Traits.Cuts.{
  Cuts, CutTrips, bind-Cuts, read_exact-Cuts, CutTrips-bind, CutTrips-end, if-CutTrips,
}
use rskafka.Protocol.Record.Batch.Laws.{LibraryLaws, IsBody, record_batch_body_round_trip}

pub record IsBatch (b : RecordBatch) : Type 0 where
  pub base_offset : InRange half64 b.base_offset
  pub partition_leader_epoch : InRange half32 b.partition_leader_epoch
  pub body : IsBody b.body

int-CutTrips :
    (k half : ℕ)
    → 2 * half ≡ 256 ^ k
    → (z : ℤ) → InRange half z
    → CutTrips (read_int k half) (write_int k half z) z
unfolding read_int write_int
int-CutTrips k half full z h = record {
  trips = int-RoundTrips k half full z h;
  cuts = λ bs e.
      let same : to_be_bytes k half z ≡ bs = cc e in
      let len : length bs ≡ k = ap length (sym same) ∙ length-to_be_bytes k half full z in
      bind-Cuts _ (subst (λ n. Cuts (read_exact n) bs) len (read_exact-Cuts bs));
}

read_vec-CutTrips : (bs : List ℕ) → CutTrips {E = WriteError} (read_vec (length bs)) (ok bs) bs
read_vec-CutTrips bs = record {
  trips = read_vec-RoundTrips bs;
  cuts = λ cs e.
      let same : bs ≡ cs = cc e in
      record {
        at = λ p q s n.
            read_vec-read_exact (length bs) p ∙ (read_exact-Cuts bs).at p q (s ∙ sym same) n;
      };
}

module _ (lib : Libraries) (laws : LibraryLaws lib) where
  to_word-from_word :
      (n : ℕ)
      → n < 2 ^ 32
      → (to_word half32 (from_word half32 n) ≡ n) × InRange half32 (from_word half32 n)
  unfolding to_word from_word
  to_word-from_word n h = ground arith

  -- Behind the body's bytes.
  batch-CutTrips :
      (b : RecordBatch) (w : Writer)
      → InRange half64 b.base_offset
      → InRange half32 b.partition_leader_epoch
      → WholeTrips (read_record_batch_body lib) w b.body
      → CutTrips
          (read_record_batch lib)
          (with_buffer w λ bytes.
            write_int64 b.base_offset
            then_write with_length half32 WriteError.malformed (length bytes + before_data lib) λ l.
              write_int32 l
              then_write write_int32 b.partition_leader_epoch
              then_write write_int8 (pos 2)
              then_write write_int32 (from_word half32 (lib.crc32c bytes))
              then_write write_all bytes)
          b
  unfolding read_record_batch read_all read_int64 read_int32 read_int8 write_int64 write_int32
      write_int8
  batch-CutTrips b (ok bytes) offset epoch t =
      let crc = to_word-from_word (lib.crc32c bytes) (laws.crc bytes) in
      let same : (to_word half32 (from_word half32 (lib.crc32c bytes)) == lib.crc32c bytes) ≡ true =
        ground (arith, crc.0) in
      let long : ltb (length bytes + before_data lib) (before_data lib) ≡ false = ground arith in
      let len : length bytes + before_data lib - before_data lib ≡ length bytes = omega arith in
      CutTrips-bind _ (int-CutTrips 8 half64 refl b.base_offset offset) (
        if-CutTrips _ (length bytes + before_data lib) half32 WriteError.malformed _ b (λ fits.
          CutTrips-bind _ (int-CutTrips 4 half32 refl (pos (length bytes + before_data lib)) fits) (
            rw (long, len)
              (CutTrips-bind _ (int-CutTrips 4 half32 refl b.partition_leader_epoch epoch) (
                CutTrips-bind _ (int-CutTrips 1 half8 refl (pos 2) (omega arith)) (
                  CutTrips-bind _
                    (int-CutTrips 4 half32 refl (from_word half32 (lib.crc32c bytes)) crc.1)
                    (CutTrips-end _ b (read_vec-CutTrips bytes)
                      (λ rest. rw same (bind_ok _ _ rest (rw (t.back bytes refl) refl))))))))))
  batch-CutTrips b (err e) offset epoch t = record {
    trips = record { back = λ bs q. cc };
    cuts = λ bs q. cc;
  }
  batch-CutTrips b panic offset epoch t = record {
    trips = record { back = λ bs q. cc };
    cuts = λ bs q. cc;
  }

  pub record_batch-CutTrips :
      (b : RecordBatch) → IsBatch b → CutTrips (read_record_batch lib) (write_record_batch lib b) b
  unfolding write_record_batch
  record_batch-CutTrips b h =
      batch-CutTrips b (write_record_batch_body lib b.body) h.base_offset h.partition_leader_epoch
        (record_batch_body_round_trip lib laws b.body h.body)

  -- A record batch with fields in the range of their types that is written is read back, and the
  -- input after it is untouched: its length and its checksum agree with its bytes. What the crates do
  -- is as they document it.
  pub record_batch_round_trip :
      (b : RecordBatch)
      → IsBatch b
      → RoundTrips (read_record_batch lib) (write_record_batch lib b) b
  record_batch_round_trip b h = (record_batch-CutTrips b h).trips
