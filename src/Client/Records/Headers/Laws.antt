-- ===== src/Client/Records/Headers/Laws.antt =====
-- What `collect` makes of the headers of a record of src/record.rs.
use rskafka.Prelude.{
  ℕ, ◌≡◌, refl, sym, ap, ◌∙◌, subst, arith, true, false, if◌then◌else◌, Bool-cases, inl, inr,
  Option, none, some, List, [], ◌∷◌, All,
}
use rskafka.Protocol.Primitives.Text.Utf8.{Text}
use rskafka.Protocol.Primitives.Text.Equality.{same_text, same_text_cases}
use rskafka.Client.Records.Headers.{HeaderMap, before, insert, collect_into}

abbrev pub get : Text → HeaderMap → Option (List ℕ)
get k [] = none
get k ((k', v) ∷ rest) = if same_text k k' then some v else get k rest

-- The keys ascend, so that none is there twice.
abbrev pub AreSorted : HeaderMap → Type 0
AreSorted [] = Unit
AreSorted ((k, v) ∷ rest) = All (λ h. before k h.0 ≡ true) rest × AreSorted rest

-- The value of the last header with a key.
abbrev pub or_earlier : Option (List ℕ) → Option (List ℕ) → Option (List ℕ)
or_earlier (some v) earlier = some v
or_earlier none earlier = earlier

abbrev pub last_of : Text → List (Text × List ℕ) → Option (List ℕ)
last_of k [] = none
last_of k ((k', v) ∷ hs) = or_earlier (last_of k hs) (if same_text k k' then some v else none)

before_trans : (s t u : Text) → before s t ≡ true → before t u ≡ true → before s u ≡ true
unfolding before
before_trans [] [] u h k = cc
before_trans [] (b ∷ t) [] h k = cc
before_trans [] (b ∷ t) (c ∷ u) h k = refl
before_trans (a ∷ s) [] u h k = cc
before_trans (a ∷ s) (b ∷ t) [] h k = cc
before_trans (a ∷ s) (b ∷ t) (c ∷ u) h k = ground (arith, before_trans s t u)

before_total : (s t : Text) → same_text s t ≡ false → before s t ≡ false → before t s ≡ true
unfolding same_text before
before_total [] [] h k = cc
before_total [] (b ∷ t) h k = cc
before_total (a ∷ s) [] h k = refl
before_total (a ∷ s) (b ∷ t) h k = ground (arith, before_total s t)

get-insert :
    (k k' : Text) (v : List ℕ) (m : HeaderMap)
    → get k (insert k' v m) ≡ (if same_text k k' then some v else get k m)
unfolding insert
get-insert k k' v [] = refl
get-insert k k' v ((a, w) ∷ m) = elim (same_text_cases k' a) [
  | inl (e, p) ↦ elim (same_text_cases k k') [
    | inl (e', p') ↦ rw (e, e') refl
    | inr e' ↦ rw (e, e') (rw (sym p, e') refl)
  ]
  | inr e ↦ elim (Bool-cases (before k' a)) [
    | inl f ↦ rw (e, f) refl
    | inr f ↦ elim (same_text_cases k a) [
      | inl (g, q) ↦ elim (same_text_cases k k') [
        | inl (e', p') ↦ cc (e, p')
        | inr e' ↦ rw (e, f, g, e') refl
      ]
      | inr g ↦ rw (e, f, g) (get-insert k k' v m)
    ]
  ]
]

get-collect_into :
    (k : Text) (hs : List (Text × List ℕ)) (m : HeaderMap)
    → get k (collect_into m hs) ≡ or_earlier (last_of k hs) (get k m)
unfolding collect_into
get-collect_into k [] m = refl
get-collect_into k ((k', v) ∷ hs) m =
    get-collect_into k hs (insert k' v m)
    ∙ ap (or_earlier (last_of k hs)) (get-insert k k' v m)
    ∙ later (last_of k hs)
  where
    later :
        (o : Option (List ℕ))
        → or_earlier o (if same_text k k' then some v else get k m)
          ≡ or_earlier (or_earlier o (if same_text k k' then some v else none)) (get k m)
    later (some w) = refl
    later none = elim (Bool-cases (same_text k k')) [ inl e ↦ rw e refl | inr e ↦ rw e refl ]

insert-All :
    (P : Text × List ℕ → Type 0) (k : Text) (v : List ℕ) (m : HeaderMap)
    → P (k, v)
    → All P m
    → All P (insert k v m)
unfolding insert
insert-All P k v [] p h = (p, tt)
insert-All P k v ((a, w) ∷ m) p h = elim (Bool-cases (same_text k a)) [
  | inl e ↦ rw e (p, h.1)
  | inr e ↦ elim (Bool-cases (before k a)) [
    | inl f ↦ rw (e, f) (p, h)
    | inr f ↦ rw (e, f) (h.0, insert-All P k v m p h.1)
  ]
]

All-behind :
    (k a : Text) (m : HeaderMap)
    → before k a ≡ true
    → All (λ h. before a h.0 ≡ true) m
    → All (λ h. before k h.0 ≡ true) m
All-behind k a [] e h = tt
All-behind k a (x ∷ m) e h = (before_trans k a x.0 e h.0, All-behind k a m e h.1)

insert-AreSorted : (k : Text) (v : List ℕ) (m : HeaderMap) → AreSorted m → AreSorted (insert k v m)
unfolding insert
insert-AreSorted k v [] h = (tt, tt)
insert-AreSorted k v ((a, w) ∷ m) h = elim (same_text_cases k a) [
  | inl (e, p) ↦ rw e (subst (λ x. All (λ y. before x y.0 ≡ true) m) (sym p) h.0, h.1)
  | inr e ↦ elim (Bool-cases (before k a)) [
    | inl f ↦ rw (e, f) ((f, All-behind k a m f h.0), h)
    | inr f ↦
        rw (e, f)
          (
            insert-All (λ y. before a y.0 ≡ true) k v m (before_total k a e f) h.0,
            insert-AreSorted k v m h.1,
          )
  ]
]

collect_into-AreSorted :
    (hs : List (Text × List ℕ)) (m : HeaderMap) → AreSorted m → AreSorted (collect_into m hs)
unfolding collect_into
collect_into-AreSorted [] m h = h
collect_into-AreSorted ((k, v) ∷ hs) m h =
    collect_into-AreSorted hs (insert k v m) (insert-AreSorted k v m h)

or_nothing : (o : Option (List ℕ)) → or_earlier o none ≡ o
or_nothing none = refl
or_nothing (some v) = refl

-- A map with the keys of some headers, in order, and the value of the last header with each.
pub record Collects (hs : List (Text × List ℕ)) (m : HeaderMap) : Type 0 where
  pub sorted : AreSorted m
  pub last : (k : Text) → get k m ≡ last_of k hs

pub collect-Collects : (hs : List (Text × List ℕ)) → Collects hs (collect_into [] hs)
collect-Collects hs = record {
  sorted = collect_into-AreSorted hs [] tt;
  last = λ k. get-collect_into k hs [] ∙ or_nothing (last_of k hs);
}
