-- ===== src/Protocol/Traits/Nested.antt =====
-- Readers of src/protocol/traits.rs one inside the other.
use rskafka.Prelude.{ℕ, ◌≡◌, refl, sym, ◌∙◌, inl, inr, List, ◌++◌}
use rskafka.Prelude.Result.{ok, Result-cases}
use rskafka.Protocol.Traits.{Reader, Writes, ◌>>=◌, ◌then_write◌}
use rskafka.Protocol.Traits.Laws.{RoundTrips, RoundTrips-bind, bind_ok}

module _ {A B C : Type 0} (m : Reader A) (f : A → Reader B) (g : B → Reader C) where
  pub bind_assoc : (s : List ℕ) → ((m >>= f) >>= g) s ≡ (m >>= λ a. f a >>= g) s
  unfolding ◌>>=◌
  bind_assoc s = elim (Result-cases (m s)) [
    | inl ((a, rest), e) ↦ rw (e, ◌>>=◌) refl
    | inr (inl (x, e)) ↦ rw (e, ◌>>=◌) refl
    | inr (inr e) ↦ rw (e, ◌>>=◌) refl
  ]

  -- A part of two steps that is written as one.
  pub RoundTrips-nested :
      {E : Type 0} {v w : Writes E} {b : B} {c : C}
      → RoundTrips (m >>= f) v b
      → RoundTrips (g b) w c
      → RoundTrips (m >>= λ a. f a >>= g) (v then_write w) c
  RoundTrips-nested {E} {v} {w} {b} {c} p q = record {
    back = λ bs e. record {
      at = λ rest. sym (bind_assoc (bs ++ rest)) ∙ ((RoundTrips-bind g p q).back bs e).at rest;
    };
  }

  pub RoundTrips-nested_end :
      {E : Type 0} {v : Writes E} {b : B} {c : C}
      → RoundTrips (m >>= f) v b
      → ((rest : List ℕ) → g b rest ≡ ok (c, rest))
      → RoundTrips (m >>= λ a. f a >>= g) v c
  RoundTrips-nested_end {E} {v} {b} {c} p q = record {
    back = λ bs e. record {
      at = λ rest.
          sym (bind_assoc (bs ++ rest)) ∙ bind_ok (m >>= f) g _ ((p.back bs e).at rest) ∙ q rest;
    };
  }
