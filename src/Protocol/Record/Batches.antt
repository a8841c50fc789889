-- ===== src/Protocol/Record/Batches.antt =====
-- `Records` of src/protocol/primitives.rs: the batches of a message, in NULLABLE_BYTES.
pub mod Laws
pub mod Rounds
use rskafka.Prelude.{ℕ, zero, suc, Option, none, some, List, [], ◌∷◌, length}
use rskafka.Prelude.Result.{Result, ok, err, panic, map_ok}
use rskafka.Protocol.Traits.{
  Reader, Writer, ReadError, io, unexpected_eof, other_io, ◌>>=◌, pure, lift, write_each,
}
use rskafka.Protocol.Primitives.ByteStrings.{read_nullable_bytes, write_nullable_bytes}
use rskafka.Protocol.Record.{RecordBatch}
use rskafka.Protocol.Record.Entry.{with_buffer}
use rskafka.Protocol.Record.Batch.{Libraries, read_record_batch, write_record_batch}
use rskafka.Protocol.Messages.Fields.{or_default}

-- The error of a batch: a source that ended is taken for a batch that was cut off.
abbrev pub after_error : ReadError → Result ReadError (List RecordBatch)
after_error (io unexpected_eof) = ok []
after_error (io other_io) = err (io other_io)
after_error ReadError.overflow = err ReadError.overflow
after_error ReadError.malformed = err ReadError.malformed

module _ (lib : Libraries) where
  -- `while buf.position() < len`, on the bytes that are left. A batch takes up at least one of them,
  -- so that their number is rounds enough, and the case of bytes without a round is never met.
  unfoldable pub read_batches : ℕ → List ℕ → Result ReadError (List RecordBatch)
  read_batches rounds [] = ok []
  read_batches zero (b ∷ s) = panic
  read_batches (suc rounds) (b ∷ s) = elim (read_record_batch lib (b ∷ s)) [
    | ok (batch, rest) ↦ map_ok (λ batches. batch ∷ batches) (read_batches rounds rest)
    | err e ↦ after_error e
    | panic ↦ panic
  ]

  unfoldable pub read_record_batches : Reader (List RecordBatch)
  read_record_batches = do
    buf ← read_nullable_bytes
    lift (read_batches (length (or_default [] buf)) (or_default [] buf))

  unfoldable pub write_record_batches : List RecordBatch → Writer
  write_record_batches batches =
      with_buffer (write_each (write_record_batch lib) batches)
        λ buf. write_nullable_bytes (some buf)
