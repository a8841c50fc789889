-- ===== src/Client/Producer/Inner/Laws.antt =====
-- What holds of the producer of src/client/producer.rs, whatever callers, tasks and brokers do.
use rskafka.Prelude.{
  ℕ, zero, suc, ◌+◌, ◌≤◌, ◌<◌, ◌≡◌, refl, arith, ◌==◌, ◌||◌, length-append, Bool, true, false,
  if◌then◌else◌, Option, none, some, List, [], ◌∷◌, ◌++◌, length, get_elem?, All,
}
use rskafka.Prelude.Result.{ok}
use rskafka.Client.Producer.Aggregator.{Aggregator}
use rskafka.Client.Producer.Broadcast.{
  Received, value, dropped, Slots, set, new_slot, openings, openings-set, openings-new_slot,
  openings_end, length-set, broadcast_open, drop_broadcast_open,
}
use rskafka.Client.Producer.Batch.{
  BatchWriteResult, ResultHandle, Flushed, nothing_to_send, given_up, sends,
}
use rskafka.Client.Producer.Inner.{
  FlushTask, Producer, remove_at, next_batch, after_flush, flush_batch,
}

-- How many of the tasks will have the result of a batch.
module _ {Deagg Time : Type 0} where
  abbrev pub claims : ℕ → List (FlushTask Deagg Time) → ℕ
  claims id [] = 0
  claims id (t ∷ ts) = (if t.results == id then 1 else 0) + claims id ts

  claims-append :
      (id : ℕ) (xs ys : List (FlushTask Deagg Time))
      → claims id (xs ++ ys) ≡ claims id xs + claims id ys
  claims-append id [] ys = omega arith
  claims-append id (x ∷ xs) ys = omega (arith, claims-append id xs ys)

  pub claims-remove_at :
      (i id : ℕ) (ts : List (FlushTask Deagg Time)) (t : FlushTask Deagg Time)
      → get_elem? ts i ≡ some t
      → claims id ts ≡ (if t.results == id then 1 else 0) + claims id (remove_at i ts)
  claims-remove_at i id [] t e = cc
  claims-remove_at zero id (x ∷ ts) t e = let same : x ≡ t = cc e in rw same refl
  claims-remove_at (suc i) id (x ∷ ts) t e = omega (arith, claims-remove_at i id ts t e)

module _ {Deagg AggError Time : Type 0} where
  -- Every batch has its result, or a task that will have it.
  abbrev IsHandedOn : Slots (BatchWriteResult AggError Deagg) → List (FlushTask Deagg Time) → Type 0
  IsHandedOn slots tasks = (id : ℕ) → claims id tasks ≡ openings slots id

module _ {A Tag Deagg AggError Time : Type 0} where
  -- Each batch without a result is the one that is collected, or has one task that will have its result.
  abbrev pub IsClaimed : Producer A Tag Deagg AggError Time → Type 0
  IsClaimed p =
      (id : ℕ)
      → (if p.batch_builder.results == id then 1 else 0) + claims id p.tasks ≡ openings p.slots id

  pub current_is_open :
      (p : Producer A Tag Deagg AggError Time)
      → IsClaimed p
      → openings p.slots p.batch_builder.results ≡ 1
  current_is_open p h = ground (arith, h p.batch_builder.results)

abbrev pub is_among : ℕ → List ℕ → Bool
is_among token [] = false
is_among token (x ∷ xs) = x == token || is_among token xs

pub is_among-remove_at :
    (token i x : ℕ) (xs : List ℕ)
    → get_elem? xs i ≡ some x
    → (x == token) ≡ false
    → is_among token xs ≡ true
    → is_among token (remove_at i xs) ≡ true
is_among-remove_at token i x [] e other h = cc
is_among-remove_at token zero x (y ∷ xs) e other h = ground arith
is_among-remove_at token (suc i) x (y ∷ xs) e other h =
    ground (arith, is_among-remove_at token i x xs e other)

module _ {Tag : Type 0} where
  -- Who waits for the batch that is collected does so with a task that lingers.
  abbrev pub AreWaited : ℕ → Bool → List (ResultHandle Tag) → Type 0
  AreWaited current lingering = All (λ h. h.receiver ≡ current → lingering ≡ true)

  abbrev pub ArePlaced : ℕ → List (ResultHandle Tag) → Type 0
  ArePlaced n = All (λ h. h.receiver < n)

  pub AreWaited-lingering : (current : ℕ) (hs : List (ResultHandle Tag)) → AreWaited current true hs
  AreWaited-lingering current [] = tt
  AreWaited-lingering current (h ∷ hs) = ((λ e. refl), AreWaited-lingering current hs)

  AreWaited-new :
      (n : ℕ) (b : Bool) (hs : List (ResultHandle Tag)) → ArePlaced n hs → AreWaited n b hs
  AreWaited-new n b [] p = tt
  AreWaited-new n b (h ∷ hs) p = ((λ e. absurd (omega arith)), AreWaited-new n b hs p.1)

  ArePlaced-grow :
      (m n : ℕ) (hs : List (ResultHandle Tag)) → m ≤ n → ArePlaced m hs → ArePlaced n hs
  ArePlaced-grow m n [] le p = tt
  ArePlaced-grow m n (h ∷ hs) le p = (omega arith, ArePlaced-grow m n hs le p.1)

module _ {A Tag Deagg AggError Time : Type 0} where
  pub record IsSound (p : Producer A Tag Deagg AggError Time) : Type 0 where
    pub claimed : IsClaimed p
    pub lingering : p.has_linger_waiter ≡ true → is_among p.flush_clock p.lingers ≡ true
    pub waited : AreWaited p.batch_builder.results p.has_linger_waiter p.handles
    pub placed : ArePlaced (length p.slots) p.handles

  -- A call that does not panic and leaves a sound producer.
  abbrev pub Kept : {X : Type 0} → Option (X × Producer A Tag Deagg AggError Time) → Type 0
  Kept none = ⊥
  Kept (some (x, p)) = IsSound p

  abbrev pub KeptState : Option (Producer A Tag Deagg AggError Time) → Type 0
  KeptState none = ⊥
  KeptState (some p) = IsSound p

module _ {A Input Tag Deagg AggError Time : Type 0}
    (agg : Aggregator A Input Tag Deagg AggError Time) where
  next_batch-IsClaimed :
      (a : A) (slots : Slots (BatchWriteResult AggError Deagg))
      (tasks : List (FlushTask Deagg Time)) (p : Producer A Tag Deagg AggError Time)
      → IsHandedOn slots tasks
      → IsClaimed (next_batch agg a slots tasks p)
  next_batch-IsClaimed a slots tasks p h id =
      ground (arith, h id, h (length slots), openings_end slots, openings-new_slot slots id)

  -- The batch that is collected gets its result.
  set-IsHandedOn :
      (p : Producer A Tag Deagg AggError Time) (v : Received (BatchWriteResult AggError Deagg))
      → IsClaimed p
      → IsHandedOn (set p.slots p.batch_builder.results (some v)) p.tasks
  set-IsHandedOn p v h id =
      ground (arith, h id, current_is_open p h, openings-set p.slots p.batch_builder.results id v)

  -- The batch that is collected gets a task.
  pub task-IsHandedOn :
      (p : Producer A Tag Deagg AggError Time) (t : FlushTask Deagg Time)
      → t.results ≡ p.batch_builder.results
      → IsClaimed p
      → IsHandedOn p.slots (p.tasks ++ t ∷ [])
  task-IsHandedOn p t e h id = ground (arith, h id, claims-append id p.tasks (t ∷ []))

  next_batch-IsSound :
      (a : A) (slots : Slots (BatchWriteResult AggError Deagg))
      (tasks : List (FlushTask Deagg Time)) (p : Producer A Tag Deagg AggError Time)
      → IsHandedOn slots tasks
      → ArePlaced (length slots) p.handles
      → IsSound (next_batch agg a slots tasks p)
  next_batch-IsSound a slots tasks p h placed = record {
    claimed = next_batch-IsClaimed a slots tasks p h;
    lingering = λ e. cc;
    waited = AreWaited-new (length slots) false p.handles placed;
    placed =
        ArePlaced-grow (length slots) (length (new_slot slots)) p.handles
          (omega (arith, length-append {0} slots (none ∷ []))) placed;
  }

  set-ArePlaced :
      (p : Producer A Tag Deagg AggError Time) (v : Received (BatchWriteResult AggError Deagg))
      → ArePlaced (length p.slots) p.handles
      → ArePlaced (length (set p.slots p.batch_builder.results (some v))) p.handles
  set-ArePlaced p v placed = rw (length-set p.slots p.batch_builder.results (some v)) placed

  after_flush-Kept :
      (p : Producer A Tag Deagg AggError Time) (f : Flushed AggError Deagg Time) (a : A)
      → IsClaimed p
      → ArePlaced (length p.slots) p.handles
      → Kept (after_flush agg p f a)
  after_flush-Kept p (nothing_to_send status) a h placed =
      rw (broadcast_open p.slots p.batch_builder.results (ok status) (current_is_open p h)) (
        next_batch-IsSound a _ p.tasks p (set-IsHandedOn p (value (ok status)) h)
          (set-ArePlaced p (value (ok status)) placed))
  after_flush-Kept p (given_up e) a h placed =
      rw (drop_broadcast_open p.slots p.batch_builder.results (current_is_open p h)) (
        next_batch-IsSound a _ p.tasks p (set-IsHandedOn p dropped h)
          (set-ArePlaced p dropped placed))
  after_flush-Kept p (sends batch deagg) a h placed =
      next_batch-IsSound a p.slots _ p (task-IsHandedOn p _ refl h) placed

  pub flush_batch-Kept :
      (p : Producer A Tag Deagg AggError Time)
      → IsClaimed p
      → ArePlaced (length p.slots) p.handles
      → Kept (flush_batch agg p)
  unfolding flush_batch
  flush_batch-Kept p h placed = after_flush-Kept p _ _ h placed
