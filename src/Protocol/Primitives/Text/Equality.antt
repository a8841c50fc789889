-- ===== src/Protocol/Primitives/Text/Equality.antt =====
-- `==` of Rust's `String`: on the bytes.
use rskafka.Prelude.{
  ◌≡◌, refl, arith, Bool, true, false, ◌&&◌, ◌==◌, Bool-cases, inl, inr, ◌⊎◌, [], ◌∷◌,
}
use rskafka.Protocol.Primitives.Text.Utf8.{Text}

unfoldable pub same_text : Text → Text → Bool
same_text [] [] = true
same_text (a ∷ s) (b ∷ t) = a == b && same_text s t
same_text _ _ = false

pub same_text→eq : (s t : Text) → same_text s t ≡ true → s ≡ t
unfolding same_text
same_text→eq [] [] h = refl
same_text→eq [] (b ∷ t) h = cc
same_text→eq (a ∷ s) [] h = cc
same_text→eq (a ∷ s) (b ∷ t) h = ground (arith, same_text→eq s t)

pub same_text_self : (s : Text) → same_text s s ≡ true
unfolding same_text
same_text_self [] = refl
same_text_self (a ∷ s) = ground (arith, same_text_self s)

pub same_text_cases : (s t : Text) → (same_text s t ≡ true) × (s ≡ t) ⊎ (same_text s t ≡ false)
same_text_cases s t = elim (Bool-cases (same_text s t)) [
  | inl e ↦ inl (e, same_text→eq s t e)
  | inr e ↦ inr e
]
