-- ===== src/Protocol/VecBuilder/Refinement.antt =====
-- The block builder of src/protocol/vec_builder.rs does what a plain vector does: `read_exact`
-- through it is one `read_exact` of all bytes, and pushed elements come out in order.
use rskafka.Prelude.{
  ℕ, zero, suc, ◌+◌, ◌-◌, ◌≤◌, ◌<◌, ◌≡◌, ◌≢◌, false, inl, inr, refl, ap, sym, ◌∙◌, arith, min, some,
  List, [], ◌∷◌, ◌++◌, append-nil, append_assoc, length, length-drop, take, drop, concat, leb, ◌==◌,
  Bool-cases, le→leb, lt→leb_false, leb→le,
}
use rskafka.Prelude.Result.{Result, ok, err, panic, map_ok}
use rskafka.Protocol.Traits.{ReadError, ◌>>=◌, pure, read_exact}
use rskafka.Protocol.Traits.Laws.{bind_ok, bind_err, bind_pure, read_exact_eof, read_exact_enough}
use rskafka.Protocol.VecBuilder.{
  VecBuilder, last?, extend_last, open_block, new, join_blocks, into_vec, to_read, fill,
  read_blocks, read_exact_builder, read_vec,
}
use rskafka.Protocol.VecBuilder.Blocks.{
  last?-some, extend_last-ne-nil, concat-extend_last, HasRoom, open_block-HasRoom,
}

abbrev pub Bytes : Type 0
Bytes = List ℕ

pub take-add : (k n : ℕ) (s : Bytes) → take (k + n) s ≡ take k s ++ take n (drop k s)
take-add zero n s = let e : zero + n ≡ n = omega arith in ap (λ j. take j s) e
take-add (suc k) n [] =
    let e : suc k + n ≡ suc (k + n) = omega arith in ap (λ j. take j []) e ∙ nothing n
  where
    nothing : (n : ℕ) → take {A = ℕ} (suc (k + n)) [] ≡ take n []
    nothing zero = refl
    nothing (suc n) = refl
take-add (suc k) n (x ∷ s) =
    let e : suc k + n ≡ suc (k + n) = omega arith in
    ap (λ j. take j (x ∷ s)) e ∙ ap (λ t. x ∷ t) (take-add k n s)

pub drop-add : (k n : ℕ) (s : Bytes) → drop (k + n) s ≡ drop n (drop k s)
drop-add zero n s = let e : zero + n ≡ n = omega arith in ap (λ j. drop j s) e
drop-add (suc k) n [] =
    let e : suc k + n ≡ suc (k + n) = omega arith in ap (λ j. drop j []) e ∙ nothing n
  where
    nothing : (n : ℕ) → drop {A = ℕ} (suc (k + n)) [] ≡ drop n []
    nothing zero = refl
    nothing (suc n) = refl
drop-add (suc k) n (x ∷ s) =
    let e : suc k + n ≡ suc (k + n) = omega arith in ap (λ j. drop j (x ∷ s)) e ∙ drop-add k n s

-- What a reader of bytes returns, put behind the bytes that are there already.
abbrev after : Bytes → Result ReadError (Bytes × Bytes) → Result ReadError (Bytes × Bytes)
after front = map_ok (λ p. (front ++ p.0, p.1))

-- A read of `k + n` bytes, where `k` are there, is a read of `k` and one of `n`.
read_exact-add :
    (k n : ℕ) (s front : Bytes)
    → k ≤ length s
    → after front (read_exact (k + n) s) ≡ after (front ++ take k s) (read_exact n (drop k s))
unfolding read_exact
read_exact-add k n s front h = elim (Bool-cases (leb (k + n) (length s))) [
  | inl all ↦
      rw (all, le→leb n (length (drop k s)) (omega (arith, leb→le _ _ all, length-drop k s)))
        (simp (take-add, drop-add, append_assoc))
  | inr short ↦ rw (short, lt→leb_false n (length (drop k s)) (ground (arith, length-drop k s)))
]

abbrev contents : Result ReadError (VecBuilder ℕ × Bytes) → Result ReadError (Bytes × Bytes)
contents = map_ok (λ p. (concat p.0.blocks, p.1))

-- What an opened block leaves to be shown of one round.
module _ (fuel : ℕ) (b : VecBuilder ℕ) (s : Bytes) (opened : List (List ℕ)) (target : Bytes)
    (is_last : last? b.blocks ≡ some target)
    (is_open : open_block b.elements_per_block b.blocks target ≡ opened)
    (r : HasRoom b.elements_per_block b.blocks opened) (more : 0 < b.remaining_elements) where
  asked : to_read b opened ≡ min b.remaining_elements (b.elements_per_block - length r.buf)
  unfolding to_read
  asked = rw (r.is_last, to_read) refl

  asked_bounds : (0 < to_read b opened) × (to_read b opened ≤ b.remaining_elements)
  asked_bounds = rw asked (omega (arith, r.room))

  round :
      read_blocks (suc fuel) b s
      ≡ (read_exact (to_read b opened) >>= λ bytes. read_blocks fuel (fill b opened bytes)) s
  unfolding read_blocks
  round =
      let busy : (b.remaining_elements == 0) ≡ false = ground arith in
      rw (busy, is_last, is_open, read_blocks) refl

  -- A round that gets its bytes, and then whatever reads the rest.
  round_rest :
      to_read b opened ≤ length s
      → contents
          (read_blocks fuel (fill b opened (take (to_read b opened) s)) (drop (to_read b opened) s))
        ≡ after
            (concat (extend_last opened (take (to_read b opened) s)))
            (read_exact (b.remaining_elements - to_read b opened) (drop (to_read b opened) s))
      → contents (read_blocks (suc fuel) b s)
        ≡ after (concat b.blocks) (read_exact b.remaining_elements s)
  round_rest fits ih =
      let k = to_read b opened in
      let all : k + (b.remaining_elements - k) ≡ b.remaining_elements =
        omega (arith, asked_bounds) in
      let front : concat (extend_last opened (take k s)) ≡ concat b.blocks ++ take k s =
        rw (concat-extend_last opened (take k s) r.nonempty, r.same) refl in
      ap contents (round ∙ bind_ok (read_exact k) _ s (read_exact_enough k s fits))
      ∙ ih
      ∙ ap (λ t. after t (read_exact (b.remaining_elements - k) (drop k s))) front
      ∙ sym (read_exact-add k (b.remaining_elements - k) s (concat b.blocks) fits)
      ∙ ap (λ n. after (concat b.blocks) (read_exact n s)) all

  round_eof :
      length s < to_read b opened
      → contents (read_blocks (suc fuel) b s)
        ≡ after (concat b.blocks) (read_exact b.remaining_elements s)
  round_eof short =
      ap contents (round ∙ bind_err (read_exact (to_read b opened)) _ s (read_exact_eof _ s short))
      ∙ ap (after (concat b.blocks))
          (sym (read_exact_eof b.remaining_elements s (omega (arith, asked_bounds))))

after_nothing : (n : ℕ) (s front : Bytes) → n ≡ 0 → after front (read_exact n s) ≡ ok (front, s)
unfolding read_exact
after_nothing zero s front h =
    ap (after front) (read_exact_enough 0 s (omega arith)) ∙ ap (λ t. ok (t, s)) (append-nil front)
after_nothing (suc n) s front h = absurd (omega arith)

-- The loop reads what one `read_exact` of all that remains reads, or fails as that does.
read_blocks-read_exact :
    (fuel : ℕ) (b : VecBuilder ℕ) (s : Bytes)
    → b.remaining_elements ≤ fuel
    → 0 < b.elements_per_block
    → b.blocks ≢ []
    → contents (read_blocks fuel b s) ≡ after (concat b.blocks) (read_exact b.remaining_elements s)
unfolding fill
read_blocks-read_exact zero b s enough per ne =
    unfold read_blocks in sym (after_nothing b.remaining_elements s _ (omega arith))
read_blocks-read_exact (suc fuel) b s enough per ne =
    elim (Bool-cases (b.remaining_elements == 0)) [
      | inl done ↦
          unfold read_blocks in
          rw (done, read_blocks) (sym (after_nothing b.remaining_elements s _ (ground arith)))
      | inr more ↦
          let (target, is_last) = last?-some b.blocks ne in
          let opened = open_block b.elements_per_block b.blocks target in
          let r = open_block-HasRoom b.elements_per_block b.blocks target per ne is_last in
          let busy : 0 < b.remaining_elements = ground arith in
          let k = to_read b opened in
          let bounds = asked_bounds fuel b s opened target is_last refl r busy in
          elim (Bool-cases (leb k (length s))) [
            | inl all ↦ round_rest fuel b s opened target is_last refl r busy (leb→le _ _ all) (
                read_blocks-read_exact fuel (fill b opened (take k s)) (drop k s)
                  (omega (arith, bounds)) per (extend_last-ne-nil opened (take k s) r.nonempty))
            | inr short ↦ round_eof fuel b s opened target is_last refl r busy (ground arith)
          ]
    ]

join_blocks-concat : {A : Type 0} (bs : List (List A)) → join_blocks bs ≡ concat bs
unfolding join_blocks
join_blocks-concat [] = refl
join_blocks-concat (x ∷ []) = sym (append-nil x)
join_blocks-concat (x ∷ y ∷ rest) = refl

pub into_vec-concat : {A : Type 0} (b : VecBuilder A) → into_vec b ≡ concat b.blocks
unfolding into_vec
into_vec-concat b = join_blocks-concat b.blocks

into-contents :
    (r : Result ReadError (VecBuilder ℕ × Bytes)) → map_ok (λ p. (into_vec p.0, p.1)) r ≡ contents r
into-contents (ok p) = ap (λ t. ok (t, p.1)) (into_vec-concat p.0)
into-contents (err e) = refl
into-contents panic = refl

after-nil : (r : Result ReadError (Bytes × Bytes)) → after [] r ≡ r
after-nil (ok p) = refl
after-nil (err e) = refl
after-nil panic = refl

-- Reading `len` bytes through a `VecBuilder<u8>` is one `read_exact` of `len` bytes, on every input
-- and also where that fails. The builder neither panics nor runs out of rounds.
pub read_vec-read_exact : (len : ℕ) (s : Bytes) → read_vec len s ≡ read_exact len s
unfolding read_vec new read_exact_builder
read_vec-read_exact len s =
    let b : VecBuilder ℕ = record {
      elements_per_block = 10485760;
      blocks = [] ∷ [];
      remaining_elements = len;
    } in
    bind_ok _ (λ b. read_exact_builder b >>= λ b'. pure (into_vec b')) s refl
    ∙ bind_pure (read_blocks len b) into_vec s
    ∙ into-contents (read_blocks len b s)
    ∙ read_blocks-read_exact len b s (omega arith) (omega arith) (λ e. cc)
    ∙ after-nil (read_exact len s)
