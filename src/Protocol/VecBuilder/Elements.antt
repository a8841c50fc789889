-- ===== src/Protocol/VecBuilder/Elements.antt =====
-- `push` of src/protocol/vec_builder.rs: elements pushed one by one come out in order, so the loops
-- of the array readers are plain repetitions of their element's reader.
use rskafka.Prelude.{
  ℕ, zero, suc, ◌-◌, ◌/◌, ◌≤◌, ◌<◌, ◌≡◌, ◌≢◌, true, false, inl, inr, refl, ap, sym, ◌∙◌, arith,
  List, [], ◌∷◌, ◌++◌, append-nil, append_assoc, concat, ◌==◌,
}
use rskafka.Prelude.Result.{Result, ok, err, panic, map_ok, Result-cases}
use rskafka.Protocol.Traits.{Reader, ReadError, ◌>>=◌, pure, lift, read_times}
use rskafka.Protocol.Traits.Laws.{bind_ok, bind_err, bind_panic, bind_pure}
use rskafka.Protocol.VecBuilder.{
  VecBuilder, default_block_size, extend_last, open_block, new, push, into_vec, push_times,
  read_elements,
}
use rskafka.Protocol.VecBuilder.Blocks.{
  last?-some, extend_last-ne-nil, concat-extend_last, open_block-HasRoom,
}
use rskafka.Protocol.VecBuilder.Refinement.{into_vec-concat}

record IsSound {A : Type 0} (b : VecBuilder A) : Type 0 where
  pub capacity : 0 < b.elements_per_block
  pub nonempty : b.blocks ≢ []

-- What one `push` does to a builder that expects more elements.
record Pushes {A : Type 0} (b : VecBuilder A) (a : A) : Type 0 where
  pub next : VecBuilder A
  pub returns : push b a ≡ ok next
  pub sound : IsSound next
  pub appended : concat next.blocks ≡ concat b.blocks ++ a ∷ []
  pub counted : next.remaining_elements ≡ b.remaining_elements - 1

push-Pushes :
    {A : Type 0} (b : VecBuilder A) (a : A) → IsSound b → 0 < b.remaining_elements → Pushes b a
unfolding push
push-Pushes b a h more =
    let (target, is_last) = last?-some b.blocks h.nonempty in
    let opened = open_block b.elements_per_block b.blocks target in
    let r = open_block-HasRoom b.elements_per_block b.blocks target h.capacity h.nonempty is_last in
    let busy : (b.remaining_elements == 0) ≡ false = ground arith in
    record {
      next = record b {
        blocks = extend_last opened (a ∷ []);
        remaining_elements = b.remaining_elements - 1;
      };
      returns = rw (busy, is_last, push) refl;
      sound = record {
        capacity = h.capacity;
        nonempty = extend_last-ne-nil opened (a ∷ []) r.nonempty;
      };
      appended = rw (concat-extend_last opened (a ∷ []) r.nonempty, r.same) refl;
      counted = refl;
    }

-- A builder that got all its elements takes no more.
pub push_full :
    {A : Type 0} (b : VecBuilder A) (a : A) → b.remaining_elements ≡ 0 → push b a ≡ panic
unfolding push
push_full b a h =
    let full : (b.remaining_elements == 0) ≡ true = ground arith in rw (full, push) refl

per_block : (size : ℕ) → 0 < size → size ≤ default_block_size → 0 < default_block_size / size
per_block size sized fits = grind arith

abbrev fresh : {A : Type 0} → ℕ → ℕ → VecBuilder A
fresh element_size len = record {
  elements_per_block = default_block_size / element_size;
  blocks = [] ∷ [];
  remaining_elements = len;
}

new-sized :
    {A : Type 0} (element_size len : ℕ)
    → 0 < element_size
    → element_size ≤ default_block_size
    → new element_size len ≡ ok (fresh {A = A} element_size len)
unfolding new
new-sized element_size len sized fits =
    let a : (element_size == 0) ≡ false = ground arith in
    let b : (default_block_size / element_size == 0) ≡ false =
      ground (arith, per_block element_size sized fits) in
    rw (a, b) refl

module _ {A : Type 0} (read : Reader A) where
  abbrev pushed : Result ReadError (VecBuilder A × List ℕ) → Result ReadError (List A × List ℕ)
  pushed = map_ok (λ p. (concat p.0.blocks, p.1))

  abbrev behind : List A → Result ReadError (List A × List ℕ) → Result ReadError (List A × List ℕ)
  behind front = map_ok (λ p. (front ++ p.0, p.1))

  behind-cons :
      (front : List A) (a : A) (r : Result ReadError (List A × List ℕ))
      → behind (front ++ a ∷ []) r ≡ behind front (map_ok (λ p. (a ∷ p.0, p.1)) r)
  behind-cons front a (ok p) = ap (λ t. ok (t, p.1)) (append_assoc front (a ∷ []) p.0)
  behind-cons front a (err e) = refl
  behind-cons front a panic = refl

  push_times-read_times :
      (n : ℕ) (b : VecBuilder A) (s : List ℕ)
      → IsSound b
      → n ≤ b.remaining_elements
      → pushed (push_times n read b s) ≡ behind (concat b.blocks) (read_times n read s)
  unfolding push_times read_times
  push_times-read_times zero b s h enough = ap (λ t. ok (t, s)) (sym (append-nil _))
  push_times-read_times (suc n) b s h enough = elim (Result-cases (read s)) [
    | inl ((a, rest), e) ↦
        let p = push-Pushes b a h (omega arith) in
        let again = push_times-read_times n p.next rest p.sound (omega (arith, p.counted)) in
        ap pushed (bind_ok read _ s e ∙ bind_ok (lift (push b a)) _ rest (rw p.returns refl))
        ∙ again
        ∙ ap (λ t. behind t (read_times n read rest)) p.appended
        ∙ behind-cons (concat b.blocks) a (read_times n read rest)
        ∙ ap (behind (concat b.blocks))
            (sym (bind_ok read _ s e ∙ bind_pure (read_times n read) (λ xs. a ∷ xs) rest))
    | inr (inl (x, e)) ↦
        ap pushed (bind_err read _ s e) ∙ ap (behind (concat b.blocks)) (sym (bind_err read _ s e))
    | inr (inr e) ↦
        ap pushed (bind_panic read _ s e)
        ∙ ap (behind (concat b.blocks)) (sym (bind_panic read _ s e))
  ]

  into-pushed :
      (r : Result ReadError (VecBuilder A × List ℕ))
      → map_ok (λ p. (into_vec p.0, p.1)) r ≡ pushed r
  into-pushed (ok p) = ap (λ t. ok (t, p.1)) (into_vec-concat p.0)
  into-pushed (err e) = refl
  into-pushed panic = refl

  behind-nil : (r : Result ReadError (List A × List ℕ)) → behind [] r ≡ r
  behind-nil (ok p) = refl
  behind-nil (err e) = refl
  behind-nil panic = refl

  -- For an element type that takes up at least a byte and at most a block, the builder's loop reads
  -- what `len` reads in a row return, in their order, and fails as they fail: no push panics.
  pub read_elements-read_times :
      (element_size len : ℕ) (s : List ℕ)
      → 0 < element_size
      → element_size ≤ default_block_size
      → read_elements element_size len read s ≡ read_times len read s
  unfolding read_elements
  read_elements-read_times element_size len s sized fits =
      let b : VecBuilder A = fresh element_size len in
      bind_ok _ (λ b. push_times len read b >>= λ b'. pure (into_vec b')) s
        (ap (λ r. lift r s) (new-sized element_size len sized fits))
      ∙ bind_pure (push_times len read b) into_vec s
      ∙ into-pushed (push_times len read b s)
      ∙ push_times-read_times len b s
          (record { capacity = per_block element_size sized fits; nonempty = λ e. cc })
          (omega arith)
      ∙ behind-nil (read_times len read s)
