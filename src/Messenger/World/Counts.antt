-- ===== src/Messenger/World/Counts.antt =====
-- How often a request stands in the map of src/messenger.rs and how often it was told something.
use rskafka.Prelude.{
  subst, ℕ, ◌+◌, ◌*◌, ◌<◌, ◌≤◌, ◌==◌, ◌≡◌, refl, arith, Bool, false, if◌then◌else◌, Bool-cases, inl,
  inr, some, List, [], ◌∷◌, ◌++◌, All,
}
use rskafka.Prelude.Int.{ℤ, eqb_ℤ, eqb_ℤ→eq, eq→eqb_ℤ, from_word}
use rskafka.Protocol.Primitives.Ints.{half32}
use rskafka.Messenger.{
  RequestError, ActiveRequest, RequestMap, Ticket, Delivery, lookup, remove, drain, correlation_id,
}

-- How many IDs there are.
abbrev pub all_ids : ℕ
all_ids = 2 * half32

abbrev one_if : Bool → ℕ
one_if b = if b then 1 else 0

abbrev pub entries : Ticket → RequestMap → ℕ
entries n [] = 0
entries n ((k, r) ∷ m) = one_if (r.channel == n) + entries n m

abbrev pub told : Ticket → List Delivery → ℕ
told n [] = 0
told n ((k, a) ∷ ds) = one_if (k == n) + told n ds

pub told-append : (n : Ticket) (xs ys : List Delivery) → told n (xs ++ ys) ≡ told n xs + told n ys
told-append n [] ys = omega arith
told-append n ((k, a) ∷ xs) ys = omega (arith, told-append n xs ys)

pub told-drain : (n : Ticket) (e : RequestError) (m : RequestMap) → told n (drain e m) ≡ entries n m
unfolding drain
told-drain n e [] = refl
told-drain n e ((k, r) ∷ m) = omega (arith, told-drain n e m)

-- Each entry stands under the ID of the request it answers, which took that ID.
abbrev pub Keyed : Ticket → RequestMap → Type 0
Keyed next = All (λ e. (e.0 ≡ correlation_id e.1.channel) × (e.1.channel < next))

-- No two of the first 2 ^ 32 requests have one ID.
pub correlation_id-injective :
    (n m : Ticket) → n < all_ids → m < all_ids → correlation_id n ≡ correlation_id m → n ≡ m
unfolding correlation_id from_word
correlation_id-injective n m hn hm e =
    let same = eq→eqb_ℤ (correlation_id n) (correlation_id m) e in ground arith

pub remove-Keyed :
    (id : ℤ) (next : Ticket) (m : RequestMap) → Keyed next m → Keyed next (remove id m)
unfolding remove
remove-Keyed id next [] h = tt
remove-Keyed id next ((k, r) ∷ m) h = elim (Bool-cases (eqb_ℤ k id)) [
  | inl same ↦ rw same (remove-Keyed id next m h.1)
  | inr other ↦ rw other (h.0, remove-Keyed id next m h.1)
]

pub entries-remove :
    (n k next : Ticket) (m : RequestMap)
    → next ≤ all_ids
    → n < next
    → Keyed next m
    → entries k (remove (correlation_id n) m) ≡ (if k == n then 0 else entries k m)
unfolding remove
entries-remove n k next [] small hn h = ground arith
entries-remove n k next ((id, r) ∷ m) small hn h =
    let rest = entries-remove n k next m small hn h.1 in
    elim (Bool-cases (eqb_ℤ id (correlation_id n))) [
      | inl same ↦
          let e : r.channel ≡ n =
            correlation_id-injective r.channel n (omega arith) (omega arith)
              (cc (h.0.0, eqb_ℤ→eq id (correlation_id n) same)) in
          rw same (ground arith)
      | inr other ↦
          let ne : (r.channel == n) ≡ false = elim (Bool-cases (r.channel == n)) [
            | inl e ↦
                let q : r.channel ≡ n = ground arith in
                cc (other, eq→eqb_ℤ id (correlation_id n) (cc (h.0.0, q)))
            | inr e ↦ e
          ] in
          rw other (ground arith)
    ]

-- The entry that a lookup comes back with stands in the map, under the ID its request took.
abbrev pub IsEntry : ℤ → Ticket → RequestMap → ActiveRequest → Type 0
IsEntry id next m r =
    (id ≡ correlation_id r.channel) × (r.channel < next) × (1 ≤ entries r.channel m)

pub lookup-IsEntry :
    (id : ℤ) (next : Ticket) (m : RequestMap) (r : ActiveRequest)
    → Keyed next m
    → lookup id m ≡ some r
    → IsEntry id next m r
unfolding lookup
lookup-IsEntry id next [] r h e = cc
lookup-IsEntry id next ((k, first) ∷ m) r h e = elim (Bool-cases (eqb_ℤ k id)) [
  | inl same ↦
      let here : some first ≡ some r = rw same at e in
      let same_request : first ≡ r = cc here in
      let entry : IsEntry id next ((k, first) ∷ m) first =
        (cc (h.0.0, eqb_ℤ→eq k id same), h.0.1, ground arith) in
      subst (IsEntry id next ((k, first) ∷ m)) same_request entry
  | inr other ↦
      let (a, b, c) = lookup-IsEntry id next m r h.1 (rw other at e) in (a, b, omega arith)
]
