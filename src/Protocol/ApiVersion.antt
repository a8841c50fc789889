-- ===== src/Protocol/ApiVersion.antt =====
-- src/protocol/api_version.rs: versions (an INT16) and ranges of versions.
use rskafka.Prelude.{ℕ, Bool, if◌then◌else◌}
use rskafka.Prelude.Int.{ℤ, pos, leb_ℤ}
use rskafka.Prelude.Result.{Result, ok, panic}

abbrev pub ApiVersion : Type 0
ApiVersion = ℤ

pub record ApiVersionRange : Type 0 where
  pub min : ApiVersion
  pub max : ApiVersion

-- `assert!(min <= max)`
unfoldable pub new : {E : Type 0} → ApiVersion → ApiVersion → Result E ApiVersionRange
new min max = if leb_ℤ min max then ok (record { min = min; max = max }) else panic

-- `v >= k`
abbrev pub at_least : ApiVersion → ℕ → Bool
at_least v k = leb_ℤ (pos k) v

-- `v <= k`
abbrev pub at_most : ApiVersion → ℕ → Bool
at_most v k = leb_ℤ v (pos k)
