-- ===== src/Protocol/Messages/Constants.antt =====
-- src/protocol/messages/constants.rs.
use rskafka.Prelude.Int.{ℤ, pos, negsuc}

-- `NORMAL_CONSUMER`
abbrev pub normal_consumer : ℤ
normal_consumer = negsuc 0

pub data IsolationLevel : Type 0 where
  read_committed read_uncommitted : IsolationLevel

-- `From<IsolationLevel> for Int8`, and `Default`
abbrev pub to_int8 : IsolationLevel → ℤ
to_int8 read_committed = pos 1
to_int8 read_uncommitted = pos 0

abbrev pub default_level : IsolationLevel
default_level = read_uncommitted
