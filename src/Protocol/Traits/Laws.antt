-- ===== src/Protocol/Traits/Laws.antt =====
-- A small logic of round trips for the readers and writers of src/protocol/traits.rs. `Reads r bs a`
-- says that `r` takes exactly the bytes `bs` off any input that begins with them, and yields `a`.
use rskafka.Prelude.{
  ℕ, ◌≤◌, ◌<◌, ◌≡◌, refl, ◌∙◌, ap, subst, arith, List, [], ◌∷◌, ◌++◌, append_assoc, length, take,
  drop, length-append, take-append, drop-append, All, le→leb, lt→leb_false,
}
use rskafka.Prelude.Result.{ok, err, panic, map_ok}
use rskafka.Protocol.Traits.{
  Reader, Writes, ReadError, io, unexpected_eof, ◌>>=◌, pure, read_exact, read_times, ◌then_write◌,
  write_each,
}

pub record Reads {A : Type 0} (r : Reader A) (bs : List ℕ) (a : A) : Type 0 where
  pub at : (rest : List ℕ) → r (bs ++ rest) ≡ ok (a, rest)

-- What a writer wrote, the reader reads back.
pub record RoundTrips {E A : Type 0} (r : Reader A) (w : Writes E) (a : A) : Type 0 where
  pub back : (bs : List ℕ) → w ≡ ok bs → Reads r bs a

module _ {A B : Type 0} where
  pub bind_ok :
      (m : Reader A) (f : A → Reader B) (s : List ℕ) {a : A} {rest : List ℕ}
      → m s ≡ ok (a, rest)
      → (m >>= f) s ≡ f a rest
  unfolding ◌>>=◌
  bind_ok m f s e = rw (e, ◌>>=◌) refl

  pub Reads-bind :
      {m : Reader A} (f : A → Reader B) {bs cs : List ℕ} {a : A} {b : B}
      → Reads m bs a
      → Reads (f a) cs b
      → Reads (m >>= f) (bs ++ cs) b
  Reads-bind {m} f {bs} {cs} p q = record {
    at = λ rest.
        ap (m >>= f) (append_assoc bs cs rest) ∙ bind_ok m f _ (p.at (cs ++ rest)) ∙ q.at rest;
  }

  pub Reads-last :
      {m : Reader A} (f : A → B) {bs : List ℕ} {a : A}
      → Reads m bs a
      → Reads (m >>= λ x. pure (f x)) bs (f a)
  Reads-last {m} f {bs} p = record {
    at = λ rest. bind_ok m (λ x. pure (f x)) (bs ++ rest) (p.at rest);
  }

-- `read_exact` for as many bytes as stand before the rest.
pub read_exact-Reads : (bs : List ℕ) → Reads (read_exact (length bs)) bs bs
unfolding read_exact
read_exact-Reads bs = record {
  at = λ rest. rw (
    le→leb (length bs) (length (bs ++ rest)) (omega (arith, length-append bs rest)),
    take-append bs rest,
    drop-append bs rest,
  );
}

-- The same with the result and the length of the bytes given by equations.
pub read_exact-Reads_last :
    {A : Type 0} (n : ℕ) (bs : List ℕ) (f : List ℕ → A) (a : A)
    → length bs ≡ n
    → f bs ≡ a
    → Reads (read_exact n >>= λ x. pure (f x)) bs a
read_exact-Reads_last {A} n bs f a el ea =
    let p : Reads (read_exact n) bs bs =
      subst (λ k. Reads (read_exact k) bs bs) el (read_exact-Reads bs) in
    subst (Reads (read_exact n >>= λ x. pure (f x)) bs) ea (Reads-last f p)

pub Reads-pure : {A : Type 0} (a : A) → Reads (pure a) [] a
Reads-pure a = record { at = λ rest. refl }

pub then_write-eq-ok :
    {E : Type 0} (v w : Writes E) {bs : List ℕ}
    → (v then_write w) ≡ ok bs
    → (xs : List ℕ) × (cs : List ℕ) × (v ≡ ok xs) × (w ≡ ok cs) × (bs ≡ xs ++ cs)
unfolding ◌then_write◌
then_write-eq-ok (ok xs) (ok cs) h = (xs, cs, refl, refl, cc)
then_write-eq-ok (ok xs) (err e) h = cc
then_write-eq-ok (ok xs) panic h = cc
then_write-eq-ok (err e) w h = cc
then_write-eq-ok panic w h = cc

module _ {E A B : Type 0} where
  -- Two parts written one after the other are read by a bind.
  pub RoundTrips-bind :
      {m : Reader A} (f : A → Reader B) {v w : Writes E} {a : A} {b : B}
      → RoundTrips m v a
      → RoundTrips (f a) w b
      → RoundTrips (m >>= f) (v then_write w) b
  RoundTrips-bind {m} f {v} {w} {a} {b} p q = record {
    back = λ bs e.
        let (xs, cs, ev, ew, eb) = then_write-eq-ok v w e in
        rw eb (Reads-bind f (p.back xs ev) (q.back cs ew));
  }

  -- The last part: what is read is put into the result.
  pub RoundTrips-last :
      {m : Reader A} (f : A → B) {v : Writes E} {a : A}
      → RoundTrips m v a
      → RoundTrips (m >>= λ x. pure (f x)) v (f a)
  RoundTrips-last {m} f {v} {a} p = record {
    back = λ bs e. record {
      at = λ rest. bind_ok m (λ x. pure (f x)) (bs ++ rest) ((p.back bs e).at rest);
    };
  }

abbrev pub written : {E : Type 0} → Writes E → List ℕ
written (ok x) = x
written (err _) = []
written panic = []

pub Reads→RoundTrips :
    {E A : Type 0} {r : Reader A} {xs : List ℕ} {a : A}
    → Reads r xs a
    → RoundTrips {E = E} r (ok xs) a
Reads→RoundTrips {E} {A} {r} {xs} {a} p = record { back = λ bs e. rw (← ap written e) p }

pub RoundTrips-pure : {E A : Type 0} (a : A) → RoundTrips {E = E} (pure a) (ok []) a
RoundTrips-pure a = Reads→RoundTrips (Reads-pure a)

pub read_exact_eof : (n : ℕ) (s : List ℕ) → length s < n → read_exact n s ≡ err (io unexpected_eof)
unfolding read_exact
read_exact_eof n s h = rw (lt→leb_false n (length s) h)

pub read_exact_enough :
    (n : ℕ) (s : List ℕ) → n ≤ length s → read_exact n s ≡ ok (take n s, drop n s)
unfolding read_exact
read_exact_enough n s h = rw (le→leb n (length s) h)

pub bind_err :
    {A B : Type 0} (m : Reader A) (f : A → Reader B) (s : List ℕ) {e : ReadError}
    → m s ≡ err e
    → (m >>= f) s ≡ err e
unfolding ◌>>=◌
bind_err m f s e = rw (e, ◌>>=◌) refl

pub bind_panic :
    {A B : Type 0} (m : Reader A) (f : A → Reader B) (s : List ℕ)
    → m s ≡ panic
    → (m >>= f) s ≡ panic
unfolding ◌>>=◌
bind_panic m f s e = rw (e, ◌>>=◌) refl

pub bind_pure :
    {A B : Type 0} (m : Reader A) (f : A → B) (s : List ℕ)
    → (m >>= λ a. pure (f a)) s ≡ map_ok (λ p. (f p.0, p.1)) (m s)
unfolding ◌>>=◌
bind_pure m f s = ground arith

pub read_times-RoundTrips :
    {E A : Type 0} (r : Reader A) (w : A → Writes E) (xs : List A)
    → All (λ a. RoundTrips r (w a) a) xs
    → RoundTrips (read_times (length xs) r) (write_each w xs) xs
unfolding read_times write_each
read_times-RoundTrips r w [] h = RoundTrips-pure []
read_times-RoundTrips r w (a ∷ xs) h =
    RoundTrips-bind _ h.0 (RoundTrips-last _ (read_times-RoundTrips r w xs h.1))

-- A reader that needs no more bytes after its first part.
pub RoundTrips-end :
    {E A B : Type 0} {m : Reader A} (f : A → Reader B) {v : Writes E} {a : A} (b : B)
    → RoundTrips m v a
    → ((rest : List ℕ) → f a rest ≡ ok (b, rest))
    → RoundTrips (m >>= f) v b
RoundTrips-end {E} {A} {B} {m} f {v} {a} b p q = record {
  back = λ bs e. record { at = λ rest. bind_ok m f (bs ++ rest) ((p.back bs e).at rest) ∙ q rest };
}
