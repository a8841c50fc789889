-- ===== src/Throttle.antt =====
-- `maybe_throttle` of src/throttle.rs.
use rskafka.Prelude.{ℕ, zero, suc, Option, none, some}
use rskafka.Prelude.Int.{ℤ, pos, negsuc}

-- For how many milliseconds, if at all.
unfoldable pub maybe_throttle : Option ℤ → Option ℕ
maybe_throttle none = none
maybe_throttle (some (pos zero)) = none
maybe_throttle (some (pos (suc n))) = some (suc n)
maybe_throttle (some (negsuc n)) = none
