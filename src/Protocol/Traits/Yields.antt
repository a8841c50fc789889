-- ===== src/Protocol/Traits/Yields.antt =====
-- Readers over src/protocol/traits.rs whose values have a property.
use rskafka.Prelude.{ℕ, zero, suc, ◌≡◌, sym, ◌∙◌, subst, inl, inr, List, All}
use rskafka.Prelude.Result.{ok, Result-cases}
use rskafka.Protocol.Traits.{Reader, ReadError, ◌>>=◌, pure, fail, read_times}
use rskafka.Protocol.Traits.Laws.{bind_ok, bind_err, bind_panic}

pub record Yields {A : Type 0} (P : A → Type 0) (r : Reader A) : Type 0 where
  pub on : (s : List ℕ) (a : A) (rest : List ℕ) → r s ≡ ok (a, rest) → P a

pub any-Yields : {A : Type 0} (r : Reader A) → Yields (λ a. Unit {0}) r
any-Yields r = record { on = λ s a rest e. tt }

pub pure-Yields : {A : Type 0} (P : A → Type 0) (a : A) → P a → Yields P (pure a)
pure-Yields P a h = record { on = λ s b rest e. let same : a ≡ b = cc e in subst P same h }

pub fail-Yields : {A : Type 0} (P : A → Type 0) (e : ReadError) → Yields P (fail e)
fail-Yields P e = record { on = λ s a rest h. cc h }

pub bind-Yields :
    {A B : Type 0} {Q : A → Type 0} {P : B → Type 0} {m : Reader A} (f : A → Reader B)
    → Yields Q m
    → ((a : A) → Q a → Yields P (f a))
    → Yields P (m >>= f)
bind-Yields {A} {B} {Q} {P} {m} f h k = record {
  on = λ s b rest p. elim (Result-cases (m s)) [
    | inl ((a, left), e) ↦ (k a (h.on s a left e)).on left b rest (sym (bind_ok m f s e) ∙ p)
    | inr (inl (x, e)) ↦ cc (sym (bind_err m f s e) ∙ p)
    | inr (inr e) ↦ cc (sym (bind_panic m f s e) ∙ p)
  ];
}

pub read_times-Yields :
    {A : Type 0} {P : A → Type 0} (n : ℕ) {r : Reader A}
    → Yields P r
    → Yields (All P) (read_times n r)
unfolding read_times
read_times-Yields {A} {P} zero h = pure-Yields (All P) _ tt
read_times-Yields {A} {P} (suc n) h =
    bind-Yields _ h
      (λ a p. bind-Yields _ (read_times-Yields n h) (λ xs q. pure-Yields (All P) _ (p, q)))
