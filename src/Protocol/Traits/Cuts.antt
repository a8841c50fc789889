-- ===== src/Protocol/Traits/Cuts.antt =====
-- Readers of src/protocol/traits.rs on input that was cut off: a round trip whose reader reports the
-- end of its source on every proper prefix of what was written.
use rskafka.Prelude.{
  ℕ, ◌<◌, ◌≡◌, ◌≢◌, refl, ap, ◌∙◌, arith, Bool-cases, inl, inr, ltb, ltb→lt, if◌then◌else◌, List,
  [], ◌∷◌, ◌++◌, length, length-append,
}
use rskafka.Prelude.Result.{ok, err}
use rskafka.Protocol.Traits.{Reader, Writes, io, unexpected_eof, ◌>>=◌, ◌then_write◌, read_exact}
use rskafka.Protocol.Traits.Laws.{
  RoundTrips, RoundTrips-bind, RoundTrips-end, then_write-eq-ok, bind_ok, bind_err, read_exact_eof,
}

pub record Cuts {A : Type 0} (r : Reader A) (bs : List ℕ) : Type 0 where
  pub at : (p q : List ℕ) → p ++ q ≡ bs → q ≢ [] → r p ≡ err (io unexpected_eof)

pub record CutTrips {E A : Type 0} (r : Reader A) (w : Writes E) (a : A) : Type 0 where
  pub trips : RoundTrips r w a
  pub cuts : (bs : List ℕ) → w ≡ ok bs → Cuts r bs

-- Where a prefix of two parts ends: in the first one, or behind it.
data PrefixOf (xs cs p q : List ℕ) : Type 0 where
  behind : (p' : List ℕ) → p ≡ xs ++ p' → p' ++ q ≡ cs → PrefixOf xs cs p q
  inside : (q' : List ℕ) → q' ≢ [] → p ++ q' ≡ xs → PrefixOf xs cs p q

split_prefix : (xs cs p q : List ℕ) → p ++ q ≡ xs ++ cs → PrefixOf xs cs p q
split_prefix [] cs p q h = behind p refl h
split_prefix (x ∷ xs) cs [] q h = inside (x ∷ xs) (λ e. cc) refl
split_prefix (x ∷ xs) cs (y ∷ p) q h = elim (split_prefix xs cs p q (cc h)) [
  | behind p' e f ↦ behind p' (cc (e, h)) f
  | inside q' n e ↦ inside q' n (cc (e, h))
]

nonempty_length : (q : List ℕ) → q ≢ [] → 0 < length q
nonempty_length [] h = absurd (h refl)
nonempty_length (x ∷ q) h = omega arith

pub read_exact-Cuts : (bs : List ℕ) → Cuts (read_exact (length bs)) bs
read_exact-Cuts bs = record {
  at = λ p q e n.
      let split : length (p ++ q) ≡ length bs = ap length e in
      read_exact_eof (length bs) p (omega (arith, split, length-append p q, nonempty_length q n));
}

-- A first part that is cut off.
pub bind-Cuts :
    {A B : Type 0} {m : Reader A} (f : A → Reader B) {bs : List ℕ} → Cuts m bs → Cuts (m >>= f) bs
bind-Cuts {A} {B} {m} f h = record { at = λ p q e n. bind_err m f p (h.at p q e n) }

module _ {E A B : Type 0} where
  pub CutTrips-bind :
      {m : Reader A} (f : A → Reader B) {v w : Writes E} {a : A} {b : B}
      → CutTrips m v a
      → CutTrips (f a) w b
      → CutTrips (m >>= f) (v then_write w) b
  CutTrips-bind {m} f {v} {w} {a} {b} h k = record {
    trips = RoundTrips-bind f h.trips k.trips;
    cuts = λ bs e.
        let (xs, cs, ev, ew, eb) = then_write-eq-ok v w e in
        record {
          at = λ p q s n. elim (split_prefix xs cs p q (s ∙ eb)) [
            | behind p' e f' ↦
                ap (m >>= f) e
                ∙ bind_ok m f (xs ++ p') ((h.trips.back xs ev).at p')
                ∙ (k.cuts cs ew).at p' q f' n
            | inside q' n' e ↦ bind_err m f p ((h.cuts xs ev).at p q' e n')
          ];
        };
  }

  pub CutTrips-end :
      {m : Reader A} (f : A → Reader B) {v : Writes E} {a : A} (b : B)
      → CutTrips m v a
      → ((rest : List ℕ) → f a rest ≡ ok (b, rest))
      → CutTrips (m >>= f) v b
  CutTrips-end {m} f {v} {a} b h q = record {
    trips = RoundTrips-end f b h.trips q;
    cuts = λ bs e. bind-Cuts f (h.cuts bs e);
  }

pub if-CutTrips :
    {E A : Type 0} (r : Reader A) (len bound : ℕ) (e : E) (w : Writes E) (a : A)
    → (len < bound → CutTrips r w a)
    → CutTrips r (if ltb len bound then w else err e) a
if-CutTrips r len bound e w a h = elim (Bool-cases (ltb len bound)) [
  | inl fits ↦ rw fits (h (ltb→lt len bound fits))
  | inr large ↦ rw large (record { trips = record { back = λ bs q. cc }; cuts = λ bs q. cc })
]
