-- ===== src/Protocol/Record/Batch/Whole.antt =====
-- Round trips of what stands at the end of a buffer, for src/protocol/record.rs.
use rskafka.Prelude.{
  ℕ, ◌<◌, ◌≡◌, ap, sym, ◌∙◌, Bool-cases, inl, inr, ltb, ltb→lt, if◌then◌else◌, List, [], ◌++◌,
  append-nil,
}
use rskafka.Prelude.Result.{ok, err}
use rskafka.Protocol.Traits.{Reader, Writes, ◌>>=◌, pure, ◌then_write◌}
use rskafka.Protocol.Traits.Laws.{RoundTrips, then_write-eq-ok, bind_ok}

-- What a writer wrote, the reader reads back and takes up all of it.
pub record WholeTrips {E A : Type 0} (r : Reader A) (w : Writes E) (a : A) : Type 0 where
  pub back : (bs : List ℕ) → w ≡ ok bs → r bs ≡ ok (a, [])

module _ {E A : Type 0} {r : Reader A} {w : Writes E} {a : A} where
  pub RoundTrips-whole : RoundTrips r w a → WholeTrips r w a
  RoundTrips-whole h = record { back = λ bs e. ap r (sym (append-nil bs)) ∙ (h.back bs e).at [] }

module _ {E A B : Type 0} where
  pub WholeTrips-bind :
      {m : Reader A} (f : A → Reader B) {v w : Writes E} {a : A} {b : B}
      → RoundTrips m v a
      → WholeTrips (f a) w b
      → WholeTrips (m >>= f) (v then_write w) b
  WholeTrips-bind {m} f {v} {w} {a} {b} p q = record {
    back = λ bs e.
        let (xs, cs, ev, ew, eb) = then_write-eq-ok v w e in
        ap (m >>= f) eb ∙ bind_ok m f (xs ++ cs) ((p.back xs ev).at cs) ∙ q.back cs ew;
  }

  pub WholeTrips-last :
      {m : Reader A} (f : A → B) {v : Writes E} {a : A}
      → WholeTrips m v a
      → WholeTrips (m >>= λ x. pure (f x)) v (f a)
  WholeTrips-last {m} f {v} {a} p = record {
    back = λ bs e. bind_ok m (λ x. pure (f x)) bs (p.back bs e);
  }

pub if-WholeTrips :
    {E A : Type 0} (r : Reader A) (len bound : ℕ) (e : E) (w : Writes E) (a : A)
    → (len < bound → WholeTrips r w a)
    → WholeTrips r (if ltb len bound then w else err e) a
if-WholeTrips r len bound e w a h = elim (Bool-cases (ltb len bound)) [
  | inl fits ↦ rw fits (h (ltb→lt len bound fits))
  | inr large ↦ rw large (record { back = λ bs q. cc })
]
