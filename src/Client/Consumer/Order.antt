-- ===== src/Client/Consumer/Order.antt =====
-- The order of what a stream of src/client/consumer.rs delivers.
use rskafka.Prelude.{
  ◌≡◌, sym, ◌∙◌, subst, arith, false, Bool-cases, inl, inr, some, List, [], ◌∷◌, All,
}
use rskafka.Prelude.Int.{ℤ, pos, ◌+ℤ◌, ◌≤ℤ◌, leb_ℤ, eqb_ℤ, InRange}
use rskafka.Protocol.Primitives.Ints.{half64}
use rskafka.Protocol.Primitives.Ints.Laws.{from_word-to_word}
use rskafka.Client.Partition.Records.{add_64}
use rskafka.Client.Records.{RecordAndOffset}
use rskafka.Client.Consumer.{insert, sort_by_offset, behind_last}

pub next-le : (a b : ℤ) → a ≤ℤ b → eqb_ℤ a b ≡ false → (a +ℤ pos 1) ≤ℤ b
unfolding ◌+ℤ◌
next-le a b h e = ground arith

pub next-le_of_gt : (a b : ℤ) → leb_ℤ b a ≡ false → (a +ℤ pos 1) ≤ℤ b
unfolding ◌+ℤ◌
next-le_of_gt a b e = ground arith

pub self-le : (z : ℤ) → z ≤ℤ z
self-le z = omega arith

module _ {Time : Type 0} where
  -- Offsets from `lo` on, each above the one before, and all below `hi`.
  abbrev pub Chain : ℤ → List (RecordAndOffset Time) → ℤ → Type 0
  Chain lo [] hi = lo ≤ℤ hi
  Chain lo (x ∷ xs) hi = (lo ≤ℤ x.offset) × Chain (x.offset +ℤ pos 1) xs hi

  -- The same without a bound.
  abbrev pub Ascends : ℤ → List (RecordAndOffset Time) → Type 0
  Ascends lo [] = Unit
  Ascends lo (x ∷ xs) = (lo ≤ℤ x.offset) × Ascends (x.offset +ℤ pos 1) xs

  abbrev pub IsApart : RecordAndOffset Time → List (RecordAndOffset Time) → Type 0
  IsApart x = All (λ y. eqb_ℤ x.offset y.offset ≡ false)

  -- No two records have one offset.
  abbrev pub AreDistinct : List (RecordAndOffset Time) → Type 0
  AreDistinct [] = Unit
  AreDistinct (x ∷ xs) = IsApart x xs × AreDistinct xs

  insert-All :
      (P : RecordAndOffset Time → Type 0) (x : RecordAndOffset Time)
      (ys : List (RecordAndOffset Time))
      → P x
      → All P ys
      → All P (insert x ys)
  unfolding insert
  insert-All P x [] p h = (p, tt)
  insert-All P x (y ∷ ys) p h = elim (Bool-cases (leb_ℤ x.offset y.offset)) [
    | inl e ↦ rw e (p, h)
    | inr e ↦ rw e (h.0, insert-All P x ys p h.1)
  ]

  pub sort-All :
      (P : RecordAndOffset Time → Type 0) (xs : List (RecordAndOffset Time))
      → All P xs
      → All P (sort_by_offset xs)
  unfolding sort_by_offset
  sort-All P [] h = tt
  sort-All P (x ∷ xs) h = insert-All P x (sort_by_offset xs) h.0 (sort-All P xs h.1)

  insert-Ascends :
      (x : RecordAndOffset Time) (ys : List (RecordAndOffset Time)) (lo : ℤ)
      → lo ≤ℤ x.offset
      → IsApart x ys
      → Ascends lo ys
      → Ascends lo (insert x ys)
  unfolding insert
  insert-Ascends x [] lo h d a = (h, tt)
  insert-Ascends x (y ∷ ys) lo h d a = elim (Bool-cases (leb_ℤ x.offset y.offset)) [
    | inl e ↦
        let le : x.offset ≤ℤ y.offset = ground arith in
        rw e (h, (next-le x.offset y.offset le d.0, a.1))
    | inr e ↦
        rw e
          (a.0, insert-Ascends x ys (y.offset +ℤ pos 1) (next-le_of_gt y.offset x.offset e) d.1 a.1)
  ]

  pub sort-Ascends :
      (xs : List (RecordAndOffset Time)) (lo : ℤ)
      → All (λ x. lo ≤ℤ x.offset) xs
      → AreDistinct xs
      → Ascends lo (sort_by_offset xs)
  unfolding sort_by_offset
  sort-Ascends [] lo h d = tt
  sort-Ascends (x ∷ xs) lo h d =
      insert-Ascends x (sort_by_offset xs) lo h.0 (sort-All _ xs d.0) (sort-Ascends xs lo h.1 d.1)

  -- The offset behind a record is an `i64` too: the record's is not the greatest one.
  abbrev pub HasNext : RecordAndOffset Time → Type 0
  HasNext x = InRange half64 (x.offset +ℤ pos 1)

  add_64-next : (x : RecordAndOffset Time) → HasNext x → add_64 x.offset (pos 1) ≡ x.offset +ℤ pos 1
  unfolding add_64
  add_64-next x h = from_word-to_word half64 (x.offset +ℤ pos 1) h

  pub behind_last-Chain :
      (xs : List (RecordAndOffset Time)) (lo hi : ℤ)
      → Ascends lo xs
      → All HasNext xs
      → behind_last xs ≡ some hi
      → Chain lo xs hi
  unfolding behind_last
  behind_last-Chain [] lo hi a n e = cc
  behind_last-Chain (x ∷ []) lo hi a n e =
      let same : x.offset +ℤ pos 1 ≡ hi = sym (add_64-next x n.0) ∙ cc e in
      (a.0, subst (λ z. (x.offset +ℤ pos 1) ≤ℤ z) same (self-le (x.offset +ℤ pos 1)))
  behind_last-Chain (x ∷ y ∷ ys) lo hi a n e =
      (a.0, behind_last-Chain (y ∷ ys) (x.offset +ℤ pos 1) hi a.1 n.1 e)

  pub Chain-weaken :
      (xs : List (RecordAndOffset Time)) (lo mid hi : ℤ)
      → lo ≤ℤ mid
      → Chain mid xs hi
      → Chain lo xs hi
  Chain-weaken [] lo mid hi h c = omega (arith, h, c)
  Chain-weaken (x ∷ xs) lo mid hi h c = (omega (arith, h, c.0), c.1)
