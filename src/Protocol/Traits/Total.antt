-- ===== src/Protocol/Traits/Total.antt =====
-- Readers over src/protocol/traits.rs that return on every input, with a value or an error.
use rskafka.Prelude.{ℕ, zero, suc, ◌≢◌, sym, ◌∙◌, Bool-cases, inl, inr, List, leb, length}
use rskafka.Prelude.Result.{panic, Result-cases}
use rskafka.Protocol.Traits.{Reader, ReadError, ◌>>=◌, pure, fail, read_exact, read_times}
use rskafka.Protocol.Traits.Laws.{bind_ok, bind_err}

pub record NeverPanics {A : Type 0} (r : Reader A) : Type 0 where
  pub on : (s : List ℕ) → r s ≢ panic

pub bind-NeverPanics :
    {A B : Type 0} {m : Reader A} (f : A → Reader B)
    → NeverPanics m
    → ((a : A) → NeverPanics (f a))
    → NeverPanics (m >>= f)
bind-NeverPanics {A} {B} {m} f h k = record {
  on = λ s p. elim (Result-cases (m s)) [
    | inl ((a, rest), e) ↦ (k a).on rest (sym (bind_ok m f s e) ∙ p)
    | inr (inl (x, e)) ↦ cc (sym (bind_err m f s e) ∙ p)
    | inr (inr e) ↦ h.on s e
  ];
}

pub pure-NeverPanics : {A : Type 0} (a : A) → NeverPanics (pure a)
pure-NeverPanics a = record { on = λ s p. cc }

pub fail-NeverPanics : {A : Type 0} (e : ReadError) → NeverPanics {A = A} (fail e)
fail-NeverPanics e = record { on = λ s p. cc }

pub read_exact-NeverPanics : (n : ℕ) → NeverPanics (read_exact n)
unfolding read_exact
read_exact-NeverPanics n = record {
  on = λ s p. elim (Bool-cases (leb n (length s))) [
    | inl fits ↦ cc (rw fits at p)
    | inr short ↦ cc (rw short at p)
  ];
}

pub read_times-NeverPanics :
    {A : Type 0} (n : ℕ) {r : Reader A} → NeverPanics r → NeverPanics (read_times n r)
unfolding read_times
read_times-NeverPanics zero h = pure-NeverPanics _
read_times-NeverPanics (suc n) h =
    bind-NeverPanics _ h
      (λ a. bind-NeverPanics _ (read_times-NeverPanics n h) (λ xs. pure-NeverPanics _))
