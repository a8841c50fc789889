-- ===== src/Client/Records.antt =====
-- src/record.rs: records as users of the library see them. The time stamp is of a type of chrono, a
-- parameter.
pub mod Headers
use rskafka.Prelude.{ℕ, ◌+◌, Option, none, some, List, [], ◌∷◌, length}
use rskafka.Prelude.Int.{ℤ}
use rskafka.Client.Records.Headers.{HeaderMap}

pub record Record (Time : Type 0) : Type 0 where
  pub key : Option (List ℕ)
  pub value : Option (List ℕ)
  pub headers : HeaderMap
  pub timestamp : Time

pub record RecordAndOffset (Time : Type 0) : Type 0 where
  pub content : Record Time
  pub offset : ℤ

abbrev size_of : Option (List ℕ) → ℕ
size_of none = 0
size_of (some bs) = length bs

abbrev header_sizes : HeaderMap → ℕ
header_sizes [] = 0
header_sizes ((k, v) ∷ rest) = length k + length v + header_sizes rest

unfoldable pub approximate_size : {Time : Type 0} → Record Time → ℕ
approximate_size r = size_of r.key + size_of r.value + header_sizes r.headers
