-- ===== src/Client/Producer/Broadcast.antt =====
-- src/client/producer/broadcast.rs: `BroadcastOnce`, a value that is published once, to any number of
-- receivers. What senders and receivers share is a place in a list, `Shared`, with its number.
use rskafka.Prelude.{
  ℕ, zero, suc, ◌≡◌, ◌<◌, refl, ap, arith, ◌==◌, if◌then◌else◌, Option, none, some, List, [], ◌∷◌,
  ◌++◌, length, get_elem?, is_some, true,
}

-- What a receiver gets: the value, or the error that the sender was dropped.
pub data Received (T : Type 0) : Type 0 where
  value : T → Received T
  dropped : Received T

abbrev pub Slots : Type 0 → Type 0
Slots T = List (Option (Received T))

module _ {T : Type 0} where
  abbrev pub set : Slots T → ℕ → Option (Received T) → Slots T
  set [] i v = []
  set (x ∷ xs) zero v = v ∷ xs
  set (x ∷ xs) (suc i) v = x ∷ set xs i v

  -- `BroadcastOnce::default`: the number of the new place is the length of the list before.
  abbrev pub new_slot : Slots T → Slots T
  new_slot slots = slots ++ none ∷ []

  -- `BroadcastOnce::broadcast`, which asserts that nothing was published: `none` is that panic.
  abbrev pub publish : Slots T → ℕ → T → Option (Option (Received T)) → Option (Slots T)
  publish slots i r (some none) = some (set slots i (some (value r)))
  publish slots i r (some (some x)) = none
  publish slots i r none = none

  unfoldable pub broadcast : Slots T → ℕ → T → Option (Slots T)
  broadcast slots i r = publish slots i r (get_elem? slots i)

  -- `Drop for BroadcastOnce`
  abbrev pub give_up : Slots T → ℕ → Option (Option (Received T)) → Slots T
  give_up slots i (some none) = set slots i (some dropped)
  give_up slots i (some (some x)) = slots
  give_up slots i none = slots

  unfoldable pub drop_broadcast : Slots T → ℕ → Slots T
  drop_broadcast slots i = give_up slots i (get_elem? slots i)

  -- `BroadcastOnceReceiver::peek`
  abbrev pub peeked : Option (Option (Received T)) → Option (Received T)
  peeked (some r) = r
  peeked none = none

  unfoldable pub peek : Slots T → ℕ → Option (Received T)
  peek slots i = peeked (get_elem? slots i)

  -- How often something may be published at a place: once as long as nothing was.
  abbrev pub open_at : Option (Option (Received T)) → ℕ
  open_at (some none) = 1
  open_at (some (some x)) = 0
  open_at none = 0

  abbrev pub openings : Slots T → ℕ → ℕ
  openings slots i = open_at (get_elem? slots i)

  pub openings-set :
      (slots : Slots T) (i j : ℕ) (v : Received T)
      → openings (set slots i (some v)) j ≡ (if i == j then 0 else openings slots j)
  openings-set [] i j v = ground arith
  openings-set (x ∷ xs) zero zero v = refl
  openings-set (x ∷ xs) zero (suc j) v = ground arith
  openings-set (x ∷ xs) (suc i) zero v = ground arith
  openings-set (x ∷ xs) (suc i) (suc j) v = ground (arith, openings-set xs i j v)

  pub openings-new_slot :
      (slots : Slots T) (j : ℕ)
      → openings (new_slot slots) j ≡ (if length slots == j then 1 else openings slots j)
  openings-new_slot [] zero = refl
  openings-new_slot [] (suc j) = ground arith
  openings-new_slot (x ∷ xs) zero = ground arith
  openings-new_slot (x ∷ xs) (suc j) = ground (arith, openings-new_slot xs j)

  pub openings_end : (slots : Slots T) → openings slots (length slots) ≡ 0
  openings_end [] = refl
  openings_end (x ∷ xs) = openings_end xs

  pub length-set :
      (slots : Slots T) (i : ℕ) (v : Option (Received T)) → length (set slots i v) ≡ length slots
  length-set [] i v = refl
  length-set (x ∷ xs) zero v = refl
  length-set (x ∷ xs) (suc i) v = ap suc (length-set xs i v)

  pub open-lt-length : (slots : Slots T) (i : ℕ) → openings slots i ≡ 1 → i < length slots
  open-lt-length [] i h = absurd (omega arith)
  open-lt-length (x ∷ xs) zero h = omega arith
  open-lt-length (x ∷ xs) (suc i) h = omega (arith, open-lt-length xs i h)

  -- Whoever waits at a place where nothing more may be published has something to read.
  pub closed-peek :
      (slots : Slots T) (i : ℕ)
      → i < length slots
      → openings slots i ≡ 0
      → is_some (peek slots i) ≡ true
  unfolding peek
  closed-peek [] i lt h = absurd (omega arith)
  closed-peek (none ∷ xs) zero lt h = absurd (omega arith)
  closed-peek (some x ∷ xs) zero lt h = refl
  closed-peek (x ∷ xs) (suc i) lt h = closed-peek xs i (omega arith) h

  -- A place where something may be published.
  pub broadcast_open :
      (slots : Slots T) (i : ℕ) (r : T)
      → openings slots i ≡ 1
      → broadcast slots i r ≡ some (set slots i (some (value r)))
  unfolding broadcast
  broadcast_open slots i r h = go (get_elem? slots i) h
    where
      go :
          (o : Option (Option (Received T)))
          → open_at o ≡ 1
          → publish slots i r o ≡ some (set slots i (some (value r)))
      go none h = absurd (omega arith)
      go (some none) h = refl
      go (some (some x)) h = absurd (omega arith)

  pub drop_broadcast_open :
      (slots : Slots T) (i : ℕ)
      → openings slots i ≡ 1
      → drop_broadcast slots i ≡ set slots i (some dropped)
  unfolding drop_broadcast
  drop_broadcast_open slots i h = go (get_elem? slots i) h
    where
      go :
          (o : Option (Option (Received T)))
          → open_at o ≡ 1
          → give_up slots i o ≡ set slots i (some dropped)
      go none h = absurd (omega arith)
      go (some none) h = refl
      go (some (some x)) h = absurd (omega arith)
