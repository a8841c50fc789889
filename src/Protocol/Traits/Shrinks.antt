-- ===== src/Protocol/Traits/Shrinks.antt =====
-- How many bytes readers over src/protocol/traits.rs take at least, on any input that they can read.
use rskafka.Prelude.{
  ℕ, ◌+◌, ◌≤◌, ◌≡◌, ap, sym, ◌∙◌, arith, Bool, true, false, Bool-cases, inl, inr, List, leb, leb→le,
  length, drop, take, length-drop, if◌then◌else◌,
}
use rskafka.Prelude.Result.{Result, ok, err, panic, Result-cases}
use rskafka.Protocol.Traits.{Reader, ReadError, ◌>>=◌, pure, fail, lift, read_exact}
use rskafka.Protocol.Traits.Laws.{bind_ok, bind_err, bind_panic}

pub record Takes {A : Type 0} (k : ℕ) (r : Reader A) : Type 0 where
  pub by : (s : List ℕ) (a : A) (rest : List ℕ) → r s ≡ ok (a, rest) → length rest + k ≤ length s

module _ {A B : Type 0} where
  pub bind-Takes :
      (k : ℕ) {m : Reader A} (f : A → Reader B)
      → Takes k m
      → ((a : A) → Takes 0 (f a))
      → Takes k (m >>= f)
  bind-Takes k {m} f h g = record {
    by = λ s b rest e. elim (Result-cases (m s)) [
      | inl ((a, left), q) ↦
          omega (arith, h.by s a left q, (g a).by left b rest (sym (bind_ok m f s q) ∙ e))
      | inr (inl (x, q)) ↦ cc (sym (bind_err m f s q) ∙ e)
      | inr (inr q) ↦ cc (sym (bind_panic m f s q) ∙ e)
    ];
  }

pub Takes-zero : {A : Type 0} (k : ℕ) {r : Reader A} → Takes k r → Takes 0 r
Takes-zero k h = record { by = λ s a rest e. omega (arith, h.by s a rest e) }

ok-rest :
    {A : Type 0} {a b : A} {s t : List ℕ}
    → ◌≡◌ {A = Result ReadError (A × List ℕ)} (ok (a, s)) (ok (b, t))
    → s ≡ t
ok-rest e = cc e

pub pure-Takes : {A : Type 0} (a : A) → Takes 0 (pure a)
pure-Takes a = record {
  by = λ s b rest e. let same : s ≡ rest = ok-rest e in omega (arith, ap length same);
}

pub fail-Takes : {A : Type 0} (e : ReadError) → Takes {A = A} 0 (fail e)
fail-Takes x = record { by = λ s b rest e. cc }

pub lift-Takes : {A : Type 0} (r : Result ReadError A) → Takes 0 (lift r)
lift-Takes (ok a) = pure-Takes a
lift-Takes (err e) = fail-Takes e
lift-Takes panic = record { by = λ s b rest e. cc }

pub if-Takes :
    {A : Type 0} (b : Bool) {r q : Reader A} → Takes 0 r → Takes 0 q → Takes 0 (if b then r else q)
if-Takes true h k = h
if-Takes false h k = k

pub read_exact-Takes : (n : ℕ) → Takes n (read_exact n)
unfolding read_exact
read_exact-Takes n = record {
  by = λ s a rest e. elim (Bool-cases (leb n (length s))) [
    | inl q ↦
        let read : ◌≡◌ {A = Result ReadError (List ℕ × List ℕ)} (ok (take n s, drop n s))
            (ok (a, rest)) =
          rw q at e in
        let same : drop n s ≡ rest = ok-rest read in
        omega (arith, leb→le _ _ q, length-drop n s, ap length same)
    | inr q ↦ cc (rw q at e)
  ];
}
