-- ===== src/Messenger/Versions.antt =====
-- `match_versions` of src/messenger.rs.
use rskafka.Prelude.{◌&&◌, if◌then◌else◌, Bool-cases, inl, inr, Option, none, some, arith}
use rskafka.Prelude.Int.{ℤ, ◌≤ℤ◌, leb_ℤ}
use rskafka.Protocol.ApiVersion.{ApiVersion, ApiVersionRange}

-- `Ord::min`
min_ℤ : ℤ → ℤ → ℤ
min_ℤ a b = if leb_ℤ a b then a else b

unfoldable pub match_versions : ApiVersionRange → ApiVersionRange → Option ApiVersion
unfolding min_ℤ
match_versions a b =
    if leb_ℤ a.min b.max && leb_ℤ b.min a.max then some (min_ℤ a.max b.max) else none

abbrev pub HasVersion : ApiVersionRange → ApiVersion → Type 0
HasVersion r v = (r.min ≤ℤ v) × (v ≤ℤ r.max)

-- The greatest version of both ranges, or none if they have no version in common.
abbrev pub IsGreatestCommon : ApiVersionRange → ApiVersionRange → Option ApiVersion → Type 0
IsGreatestCommon a b none = (v : ApiVersion) → HasVersion a v → HasVersion b v → ⊥
IsGreatestCommon a b (some v) =
    HasVersion a v × HasVersion b v × ((w : ApiVersion) → HasVersion a w → HasVersion b w → w ≤ℤ v)

-- Two ranges that are not flipped are matched to the greatest version that both have, and to none
-- exactly if they have no version in common.
pub match_versions_greatest :
    (a b : ApiVersionRange)
    → a.min ≤ℤ a.max
    → b.min ≤ℤ b.max
    → IsGreatestCommon a b (match_versions a b)
unfolding match_versions
match_versions_greatest a b ha hb = elim (Bool-cases (leb_ℤ a.min b.max)) [
  | inl p ↦ elim (Bool-cases (leb_ℤ b.min a.max)) [
    | inl q ↦ elim (Bool-cases (leb_ℤ a.max b.max)) [
      | inl r ↦ rw (p, q, r) (ground arith)
      | inr r ↦ rw (p, q, r) (ground arith)
    ]
    | inr q ↦ rw (p, q) (λ v x y. ground arith)
  ]
  | inr p ↦ rw p (λ v x y. ground arith)
]
