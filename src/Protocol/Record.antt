-- ===== src/Protocol/Record.antt =====
-- src/protocol/record.rs: records and the batches they come in.
pub mod Entry
pub mod Attributes
pub mod Batch
pub mod Batches
use rskafka.Prelude.{ℕ, Bool, Option, List}
use rskafka.Prelude.Int.{ℤ}
use rskafka.Protocol.Primitives.Text.Utf8.{Text}

pub record RecordHeader : Type 0 where
  pub key : Text
  pub value : List ℕ

pub record Record : Type 0 where
  pub timestamp_delta : ℤ
  pub offset_delta : ℤ
  pub key : Option (List ℕ)
  pub value : Option (List ℕ)
  pub headers : List RecordHeader

pub data ControlBatchRecord : Type 0 where
  abort commit : ControlBatchRecord

pub data ControlBatchOrRecords : Type 0 where
  control_batch : ControlBatchRecord → ControlBatchOrRecords
  records : List Record → ControlBatchOrRecords

pub data RecordBatchCompression : Type 0 where
  no_compression gzip snappy lz4 zstd : RecordBatchCompression

pub data RecordBatchTimestampType : Type 0 where
  create_time log_append_time : RecordBatchTimestampType

pub record RecordBatchBody : Type 0 where
  pub last_offset_delta : ℤ
  pub first_timestamp : ℤ
  pub max_timestamp : ℤ
  pub producer_id : ℤ
  pub producer_epoch : ℤ
  pub base_sequence : ℤ
  pub records : ControlBatchOrRecords
  pub compression : RecordBatchCompression
  pub is_transactional : Bool
  pub timestamp_type : RecordBatchTimestampType

-- `RecordBatch`: what stands outside of the checksum, and the fields it shares with its body.
pub record RecordBatch : Type 0 where
  pub base_offset : ℤ
  pub partition_leader_epoch : ℤ
  pub body : RecordBatchBody
