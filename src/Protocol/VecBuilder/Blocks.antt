-- ===== src/Protocol/VecBuilder/Blocks.antt =====
-- Facts about the blocks of the builder of src/protocol/vec_builder.rs.
use rskafka.Prelude.{
  ℕ, ◌≤◌, ◌<◌, ◌≡◌, ◌≢◌, inl, inr, refl, ap, ◌∙◌, arith, some, List, [], ◌∷◌, ◌++◌, append-nil,
  append_assoc, length, concat, All, leb, Bool-cases,
}
use rskafka.Protocol.VecBuilder.{last?, extend_last, open_block}

module _ {A : Type 0} where
  pub last?-some : (bs : List (List A)) → bs ≢ [] → (t : List A) × (last? bs ≡ some t)
  unfolding last?
  last?-some [] h = absurd (h refl)
  last?-some (x ∷ []) h = (x, refl)
  last?-some (x ∷ y ∷ rest) h = last?-some (y ∷ rest) (λ e. cc)

  pub extend_last-ne-nil : (bs : List (List A)) (xs : List A) → bs ≢ [] → extend_last bs xs ≢ []
  unfolding extend_last
  extend_last-ne-nil [] xs h e = h refl
  extend_last-ne-nil (x ∷ []) xs h e = cc
  extend_last-ne-nil (x ∷ y ∷ rest) xs h e = cc

  pub concat-extend_last :
      (bs : List (List A)) (xs : List A) → bs ≢ [] → concat (extend_last bs xs) ≡ concat bs ++ xs
  unfolding extend_last
  concat-extend_last [] xs h = absurd (h refl)
  concat-extend_last (x ∷ []) xs h = simp append-nil
  concat-extend_last (x ∷ y ∷ rest) xs h =
      ap (λ t. x ++ t) (concat-extend_last (y ∷ rest) xs (λ e. cc)) ∙ simp append_assoc

  concat-new_block : (bs : List (List A)) → concat (bs ++ [] ∷ []) ≡ concat bs
  concat-new_block [] = refl
  concat-new_block (x ∷ bs) = ap (λ t. x ++ t) (concat-new_block bs)

  last?-new_block : (bs : List (List A)) (x : List A) → last? (bs ++ x ∷ []) ≡ some x
  unfolding last?
  last?-new_block [] x = refl
  last?-new_block (y ∷ []) x = refl
  last?-new_block (y ∷ z ∷ rest) x = last?-new_block (z ∷ rest) x

  append-ne-nil : (bs : List (List A)) (x : List A) → bs ++ x ∷ [] ≢ []
  append-ne-nil [] x e = cc
  append-ne-nil (y ∷ bs) x e = cc

  -- After `open_block` the last block has room, and the contents are the same.
  pub record HasRoom (per_block : ℕ) (old bs : List (List A)) : Type 0 where
    pub buf : List A
    pub is_last : last? bs ≡ some buf
    pub room : length buf < per_block
    pub same : concat bs ≡ concat old
    pub nonempty : bs ≢ []

  pub open_block-HasRoom :
      (n : ℕ) (bs : List (List A)) (target : List A)
      → 0 < n
      → bs ≢ []
      → last? bs ≡ some target
      → HasRoom n bs (open_block n bs target)
  unfolding open_block
  open_block-HasRoom n bs target h ne e = elim (Bool-cases (leb n (length target))) [
    | inl full ↦ rw full (record {
      buf = [];
      is_last = last?-new_block bs [];
      room = h;
      same = concat-new_block bs;
      nonempty = append-ne-nil bs [];
    })
    | inr room ↦
        rw room
          (record { buf = target; is_last = e; room = ground arith; same = refl; nonempty = ne })
  ]

  -- No block holds more than its share.
  pub extend_last-All :
      (n : ℕ) (bs : List (List A)) (xs buf : List A)
      → last? bs ≡ some buf
      → length (buf ++ xs) ≤ n
      → All (λ b. length b ≤ n) bs
      → All (λ b. length b ≤ n) (extend_last bs xs)
  unfolding extend_last last?
  extend_last-All n [] xs buf e fits h = cc
  extend_last-All n (x ∷ []) xs buf e fits h = (ground arith, tt)
  extend_last-All n (x ∷ y ∷ rest) xs buf e fits h =
      (h.0, extend_last-All n (y ∷ rest) xs buf e fits h.1)
