-- ===== src/Protocol/ApiKey/Laws.antt =====
-- The codes of the API keys of src/protocol/api_key.rs, there and back.
use rskafka.Prelude.{
  ◌≡◌, refl, arith, Bool, true, ◌&&◌, Bool-cases, Option-cases, inl, inr, none, some, List, [], ◌∷◌,
}
use rskafka.Prelude.Int.{ℤ, eqb_ℤ, eqb_ℤ→eq}
use rskafka.Protocol.ApiKey.{ApiKey, produce, unknown, codes, arm, or_unknown, from_int16, to_int16}

-- Each entry of a table of codes has the code that the value is written as.
abbrev pub agrees {ℓ} : {A : Type ℓ} → (A → ℤ) → List (ℤ × A) → Bool
agrees f [] = true
agrees f ((c, key) ∷ rest) = eqb_ℤ (f key) c && agrees f rest

-- What `arm` finds has the code that was asked for.
pub arm-code {ℓ} :
    {A : Type ℓ} (f : A → ℤ) (table : List (ℤ × A)) (code : ℤ) (a : A)
    → agrees f table ≡ true
    → arm code table ≡ some a
    → f a ≡ code
unfolding arm
arm-code f [] code a right found = cc
arm-code f ((c, key) ∷ rest) code a right found = elim (Bool-cases (eqb_ℤ c code)) [
  | inl same ↦
      let here : some key ≡ some a = rw same at found in
      cc (here, eqb_ℤ→eq c code same, eqb_ℤ→eq (f key) c (ground arith))
  | inr other ↦ arm-code f rest code a (ground arith) (rw other at found)
]

codes_agree : agrees to_int16 codes ≡ true
unfolding to_int16
codes_agree = refl

-- A code that was received is sent back as it is, known or not.
pub to_int16-from_int16 : (code : ℤ) → to_int16 (from_int16 code) ≡ code
unfolding from_int16
to_int16-from_int16 code = elim (Option-cases (arm code codes)) [
  | inl none_has ↦ rw (none_has, or_unknown) (unfold to_int16 in refl)
  | inr (key, found) ↦ rw (found, or_unknown) (arm-code to_int16 codes code key codes_agree found)
]

-- An unknown key stands for a code that no known key has.
abbrev pub IsCanonical : ApiKey → Type 0
IsCanonical (unknown code) = arm code codes ≡ none
IsCanonical produce = Unit
IsCanonical _ = Unit

pub from_int16-to_int16 : (key : ApiKey) → IsCanonical key → from_int16 (to_int16 key) ≡ key
unfolding from_int16 to_int16
from_int16-to_int16 (unknown code) h = rw h refl
from_int16-to_int16 produce h = refl
from_int16-to_int16 _ h = refl
