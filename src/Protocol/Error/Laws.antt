-- ===== src/Protocol/Error/Laws.antt =====
-- The error codes of src/protocol/error.rs, there and back.
use rskafka.Prelude.{◌≡◌, refl, true, Option-cases, inl, inr, zero, suc}
use rskafka.Prelude.Int.{ℤ, pos, negsuc}
use rskafka.Protocol.ApiKey.{arm}
use rskafka.Protocol.ApiKey.Laws.{agrees, arm-code}
use rskafka.Protocol.Error.{codes, or_unknown, new, error_code, to_int16}

codes_agree : agrees error_code codes ≡ true
unfolding error_code
codes_agree = refl

error_code-or_unknown : (code : ℤ) → error_code (or_unknown code (arm code codes)) ≡ code
error_code-or_unknown code = elim (Option-cases (arm code codes)) [
  | inl none_has ↦ rw (none_has, or_unknown) (unfold error_code in refl)
  | inr (e, found) ↦ rw (found, or_unknown) (arm-code error_code codes code e codes_agree found)
]

-- A code that was received, 0 for no error included, is written back as it is.
pub to_int16-new : (code : ℤ) → to_int16 (new code) ≡ code
unfolding new to_int16
to_int16-new (pos zero) = refl
to_int16-new (pos (suc n)) = error_code-or_unknown (pos (suc n))
to_int16-new (negsuc n) = error_code-or_unknown (negsuc n)
