-- ===== src/Protocol/Record/Batches/Rounds.antt =====
-- The loop of `Records::read` in src/protocol/primitives.rs ends.
use rskafka.Prelude.{ℕ, zero, suc, ◌≤◌, ◌≡◌, arith, ltb, inl, inr, List, [], ◌∷◌, length}
use rskafka.Prelude.Int.{ℤ, pos, negsuc, eqb_ℤ}
use rskafka.Prelude.Result.{Result, ok, err, panic, map_ok, Result-cases}
use rskafka.Protocol.Traits.{Reader, ReadError}
use rskafka.Protocol.Traits.Shrinks.{
  Takes, bind-Takes, Takes-zero, pure-Takes, fail-Takes, lift-Takes, if-Takes, read_exact-Takes,
}
use rskafka.Protocol.VecBuilder.{read_vec}
use rskafka.Protocol.VecBuilder.Refinement.{read_vec-read_exact}
use rskafka.Protocol.Primitives.Ints.{read_int, read_int8, read_int32, read_int64}
use rskafka.Protocol.Primitives.Lengths.{with_usize}
use rskafka.Protocol.Record.Batch.{Libraries, read_record_batch, before_data}
use rskafka.Protocol.Record.{RecordBatch}
use rskafka.Protocol.Record.Batches.{after_error, read_batches}

int-Takes : (k half : ℕ) → Takes k (read_int k half)
unfolding read_int
int-Takes k half = bind-Takes k _ (read_exact-Takes k) (λ bs. pure-Takes _)

read_vec-Takes : (n : ℕ) → Takes 0 (read_vec n)
read_vec-Takes n = record {
  by = λ s a rest e. (Takes-zero n (read_exact-Takes n)).by s a rest (rw read_vec-read_exact at e);
}

usize-Takes :
    {A : Type 0} (e : ReadError) (i : ℤ) (k : ℕ → Reader A)
    → ((n : ℕ) → Takes 0 (k n))
    → Takes 0 (with_usize e i k)
usize-Takes e (pos n) k h = h n
usize-Takes e (negsuc n) k h = fail-Takes e

module _ (lib : Libraries) where
  record_batch-Takes : Takes 8 (read_record_batch lib)
  unfolding read_record_batch read_int64 read_int32 read_int8
  record_batch-Takes = bind-Takes 8 _ (int-Takes 8 _) λ offset.
      bind-Takes 0 _ (Takes-zero 4 (int-Takes 4 _)) λ len.
        usize-Takes ReadError.malformed len _ λ len.
          if-Takes (ltb len (before_data lib)) (fail-Takes ReadError.malformed) (
            bind-Takes 0 _ (Takes-zero 4 (int-Takes 4 _)) λ epoch.
              bind-Takes 0 _ (Takes-zero 1 (int-Takes 1 _)) λ magic.
                if-Takes (eqb_ℤ magic (pos 2))
                  (bind-Takes 0 _ (Takes-zero 4 (int-Takes 4 _)) λ crc.
                    bind-Takes 0 _ (read_vec-Takes _) λ bytes.
                      if-Takes _ (bind-Takes 0 _ (lift-Takes _) λ body. pure-Takes _)
                        (fail-Takes ReadError.malformed))
                  (fail-Takes ReadError.malformed))

  -- A run of the loop, without a count of its rounds: it has an end, at the end of the bytes or at a
  -- batch that is not read. A loop that does not end has no run.
  pub data Runs : List ℕ → Result ReadError (List RecordBatch) → Type 0 where
    ends : Runs [] (ok [])
    goes_on :
        (b : ℕ) (s : List ℕ) (batch : RecordBatch) (rest : List ℕ)
        (r : Result ReadError (List RecordBatch))
        → read_record_batch lib (b ∷ s) ≡ ok (batch, rest)
        → Runs rest r
        → Runs (b ∷ s) (map_ok (λ batches. batch ∷ batches) r)
    stops :
        (b : ℕ) (s : List ℕ) (e : ReadError)
        → read_record_batch lib (b ∷ s) ≡ err e
        → Runs (b ∷ s) (after_error e)
    panics : (b : ℕ) (s : List ℕ) → read_record_batch lib (b ∷ s) ≡ panic → Runs (b ∷ s) panic

  -- The loop over the batches of any bytes ends: with a round for each byte, or more, the result is that
  -- of a run of the loop to its end, since each batch that is read takes up at least eight bytes. It is
  -- a panic only if reading a batch is one.
  pub batch_rounds_are_enough :
      (rounds : ℕ) (s : List ℕ) → length s ≤ rounds → Runs s (read_batches lib rounds s)
  unfolding read_batches
  batch_rounds_are_enough zero [] h = ends
  batch_rounds_are_enough (suc n) [] h = ends
  batch_rounds_are_enough zero (b ∷ s) h = absurd (omega arith)
  batch_rounds_are_enough (suc n) (b ∷ s) h = elim (Result-cases (read_record_batch lib (b ∷ s))) [
    | inl ((batch, rest), e) ↦
        let less = record_batch-Takes.by (b ∷ s) batch rest e in
        rw (e, read_batches)
          (goes_on b s batch rest _ e (batch_rounds_are_enough n rest (omega (arith, less))))
    | inr (inl (x, e)) ↦ rw (e, read_batches) (stops b s x e)
    | inr (inr e) ↦ rw (e, read_batches) (panics b s e)
  ]
