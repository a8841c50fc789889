-- ===== src/Protocol/Traits.antt =====
-- src/protocol/traits.rs: the errors of the codecs, and what a reader and a writer do.
-- A reader works on the bytes that are left in its source (a `Cursor` or a slice) and hands back
-- the rest; a writer yields the bytes that it appends to its sink, a `Vec<u8>`, whose own
-- `write_all` does not fail. The texts that the source formats into `Malformed` are dropped.
pub mod Laws
pub mod Succeeds
pub mod Total
pub mod Yields
pub mod Nested
pub mod Cuts
pub mod Shrinks
use rskafka.Prelude.{ℕ, zero, suc, List, [], ◌∷◌, ◌++◌, length, take, drop, leb, if◌then◌else◌}
use rskafka.Prelude.Result.{Result, ok, err, panic}

-- The kinds of `std::io::Error` that the source tells apart.
pub data IoError : Type 0 where
  unexpected_eof other_io : IoError

pub data ReadError : Type 0 where
  io : IoError → ReadError
  overflow malformed : ReadError

pub data WriteError : Type 0 where
  overflow malformed : WriteError

abbrev pub Reader : Type 0 → Type 0
Reader A = List ℕ → Result ReadError (A × List ℕ)

abbrev pub Writes : Type 0 → Type 0
Writes E = Result E (List ℕ)

abbrev pub Writer : Type 0
Writer = Writes WriteError

-- Reading: `?` ends the function, and what is read next starts where the last read stopped.
infixl 5 ◌>>=◌ ◌>>◌
unfoldable pub ◌>>=◌ : {A B : Type 0} → Reader A → (A → Reader B) → Reader B
◌>>=◌ m f s = elim (m s) [ ok (a, rest) ↦ f a rest | err e ↦ err e | panic ↦ panic ]

abbrev pub ◌>>◌ : {A B : Type 0} → Reader A → Reader B → Reader B
m >> k = m >>= λ _. k

abbrev pub pure : {A : Type 0} → A → Reader A
pure a s = ok (a, s)

abbrev pub fail : {A : Type 0} → ReadError → Reader A
fail e s = err e

abbrev pub crash : {A : Type 0} → Reader A
crash s = panic

abbrev pub lift : {A : Type 0} → Result ReadError A → Reader A
lift (ok a) s = ok (a, s)
lift (err e) s = err e
lift panic s = panic

-- `Read::read_exact` into a buffer of `n` bytes.
unfoldable pub read_exact : ℕ → Reader (List ℕ)
read_exact n s = if leb n (length s) then ok (take n s, drop n s) else err (io unexpected_eof)

-- `for _ in 0..n { push(read()?) }`.
unfoldable pub read_times : {A : Type 0} → ℕ → Reader A → Reader (List A)
read_times zero r = pure []
read_times (suc n) r = do a ← r; xs ← read_times n r; pure (a ∷ xs)

-- Writing: the bytes of one part, then those of the next, up to the first error.
infixr 6 ◌then_write◌
unfoldable pub ◌then_write◌ : {E : Type 0} → Writes E → Writes E → Writes E
ok a then_write ok b = ok (a ++ b)
ok a then_write err e = err e
ok a then_write panic = panic
err e then_write _ = err e
panic then_write _ = panic

abbrev pub write_all : {E : Type 0} → List ℕ → Writes E
write_all bs = ok bs

-- `for element in elements { element.write()? }`.
unfoldable pub write_each : {E A : Type 0} → (A → Writes E) → List A → Writes E
write_each w [] = ok []
write_each w (a ∷ xs) = w a then_write write_each w xs
