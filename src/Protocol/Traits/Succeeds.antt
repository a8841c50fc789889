-- ===== src/Protocol/Traits/Succeeds.antt =====
-- When the writers of src/protocol succeed. Together with a round trip this says that a value can be
-- sent: it has bytes, and they are read back.
use rskafka.Prelude.{ℕ, ◌<◌, ◌≡◌, refl, List, [], ◌∷◌, ◌++◌, All, ltb, lt→ltb, if◌then◌else◌}
use rskafka.Prelude.Result.{ok, err}
use rskafka.Protocol.Traits.{Reader, Writes, ◌then_write◌, write_each}
use rskafka.Protocol.Traits.Laws.{RoundTrips}

pub record Succeeds {E : Type 0} (w : Writes E) : Type 0 where
  pub bytes : List ℕ
  pub written : w ≡ ok bytes

module _ {E : Type 0} where
  pub Succeeds-ok : (bs : List ℕ) → Succeeds {E = E} (ok bs)
  Succeeds-ok bs = record { bytes = bs; written = refl }

  pub Succeeds-then : (v w : Writes E) → Succeeds v → Succeeds w → Succeeds (v then_write w)
  unfolding ◌then_write◌
  Succeeds-then v w p q = record {
    bytes = p.bytes ++ q.bytes;
    written = rw (p.written, q.written) refl;
  }

  pub Succeeds-if :
      (n bound : ℕ) (w : Writes E) (e : E)
      → n < bound
      → Succeeds w
      → Succeeds (if ltb n bound then w else err e)
  Succeeds-if n bound w e h p = rw (lt→ltb n bound h) p

  pub Succeeds-each :
      {A : Type 0} (write : A → Writes E) (xs : List A)
      → All (λ a. Succeeds (write a)) xs
      → Succeeds (write_each write xs)
  unfolding write_each
  Succeeds-each write [] h = Succeeds-ok []
  Succeeds-each write (a ∷ xs) h = Succeeds-then _ _ h.0 (Succeeds-each write xs h.1)

-- `w` yields bytes from which `r` reads `a`, whatever follows them.
abbrev pub Encodes : {E A : Type 0} → Reader A → Writes E → A → Type 0
Encodes r w a = (bs : List ℕ) × (w ≡ ok bs) × ((rest : List ℕ) → r (bs ++ rest) ≡ ok (a, rest))

pub encodes :
    {E A : Type 0} {r : Reader A} {w : Writes E} {a : A}
    → RoundTrips r w a
    → Succeeds w
    → Encodes r w a
encodes p q = (q.bytes, q.written, (p.back q.bytes q.written).at)
