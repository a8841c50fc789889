-- ===== src/Messenger/World/Steps.antt =====
-- Each step of a messenger of src/messenger.rs preserves what Invariant says.
use rskafka.Prelude.{
  ℕ, suc, ◌<◌, ◌≤◌, ◌==◌, ◌≡◌, ◌≢◌, refl, sym, subst, ap, arith, Bool, false, if◌then◌else◌,
  Bool-cases, inl, inr, List, [], ◌∷◌, ◌++◌, All, leb, leb→le,
}
use rskafka.Protocol.Frame.{read_message}
use rskafka.Protocol.Frame.Total.{read_message-not_crashed}
use rskafka.Messenger.{
  RequestError, MessengerState, request_map, poison_state, RequestMap, Ticket, Delivery, insert,
  poison, correlation_id,
}
use rskafka.Messenger.Worker.{worker_turn}
use rskafka.Messenger.World.{
  Phase, unborn, preparing, sending, waiting, over, World, at, take_id, ends, message_sent,
  clean_up, register_in, cancel, send_failed, receive,
}
use rskafka.Messenger.World.Counts.{
  all_ids, entries, told-append, Keyed, remove-Keyed, entries-remove,
}
use rskafka.Messenger.World.Invariant.{map_of, answers, Owed, IsOwn, IsPoison, IsSound}
use rskafka.Messenger.World.Turns.{
  AtMostOne, poison-Settles, poison-IsPoison, worker_turn-TurnSettles,
}

pub Owed-le : (p : Phase) (c : ℕ) → Owed p c → c ≤ 1
Owed-le unborn c h = omega arith
Owed-le preparing c h = omega arith
Owed-le sending c h = omega arith
Owed-le waiting c h = omega arith
Owed-le over c h = h

-- One request moves to another phase, and the others' counts stay.
Owed-at :
    (f : Ticket → Phase) (n : Ticket) (p : Phase) (before after : Ticket → ℕ)
    → ((k : Ticket) → Owed (f k) (before k))
    → ((k : Ticket) → (k == n) ≡ false → after k ≡ before k)
    → Owed p (after n)
    → (k : Ticket) → Owed (at f n p k) (after k)
Owed-at f n p before after h others here k = elim (Bool-cases (k == n)) [
  | inl same ↦ let e : n ≡ k = ground arith in rw same (subst (λ j. Owed p (after j)) e here)
  | inr other ↦ rw other (subst (Owed (f k)) (sym (others k other)) (h k))
]

taken_at :
    (f : Ticket → Phase) (n next : Ticket) (p : Phase)
    → ((k : Ticket) → next ≤ k → f k ≡ unborn)
    → n < next
    → (k : Ticket) → next ≤ k
    → at f n p k ≡ unborn
taken_at f n next p h born k le = let other : (k == n) ≡ false = ground arith in rw other (h k le)

Keyed-weaken : (next : Ticket) (m : RequestMap) → Keyed next m → Keyed (suc next) m
Keyed-weaken next [] h = tt
Keyed-weaken next (e ∷ m) h = ((h.0.0, omega (arith, h.0.1)), Keyed-weaken next m h.1)

All-append : (xs ys : List Delivery) → All IsOwn xs → All IsOwn ys → All IsOwn (xs ++ ys)
All-append [] ys h k = k
All-append (x ∷ xs) ys h k = (h.0, All-append xs ys h.1 k)

module _ (w : World) (h : IsSound w) where
  one : AtMostOne (map_of w.state)
  one k = omega (arith, Owed-le (w.phase k) (answers k w.state w.delivered) (h.owed k))

  -- A request that took its ID has one of the first tickets.
  born : (n : Ticket) → w.phase n ≢ unborn → n < w.next
  born n p = elim (Bool-cases (leb w.next n)) [
    | inl q ↦ absurd (p (h.taken n (leb→le w.next n q)))
    | inr q ↦ ground arith
  ]

  abbrev count : Ticket → ℕ
  count k = answers k w.state w.delivered

  pub take_id-IsSound : IsSound (take_id w)
  unfolding take_id
  take_id-IsSound = record {
    taken = λ k le.
        let other : (k == w.next) ≡ false = ground arith in rw other (h.taken k (omega arith));
    owed =
        Owed-at w.phase w.next preparing count count h.owed (λ k q. refl)
          (subst (λ p. Owed p (count w.next)) (h.taken w.next (omega arith)) (h.owed w.next));
    keyed = Keyed-weaken w.next (map_of w.state) h.keyed;
    own = h.own;
    stops = h.stops;
  }

  -- A request that moves on while the state stays as it is.
  moved :
      (n : Ticket) (p : Phase)
      → w.phase n ≢ unborn
      → Owed p (count n)
      → IsSound (record w { phase = at w.phase n p })
  moved n p b owe = record {
    taken = taken_at w.phase n w.next p h.taken (born n b);
    owed = Owed-at w.phase n p count count h.owed (λ k q. refl) owe;
    keyed = h.keyed;
    own = h.own;
    stops = h.stops;
  }

  pub at_phase : (n : Ticket) (p : Phase) → w.phase n ≡ p → Owed p (count n)
  at_phase n p e = subst (λ p. Owed p (count n)) e (h.owed n)

  pub ends-IsSound : (n : Ticket) → w.phase n ≢ unborn → IsSound (ends n w)
  ends-IsSound n b = moved n over b (Owed-le (w.phase n) (count n) (h.owed n))

  pub message_sent-IsSound : (n : Ticket) → w.phase n ≡ sending → IsSound (message_sent n w)
  unfolding message_sent
  message_sent-IsSound n e = moved n waiting (λ q. cc (e, q)) (at_phase n sending e)

-- A request moves on and the state changes, but not what the others get.
changed :
    (w : World) (n : Ticket) (p : Phase) (s : MessengerState) (ds : List Delivery)
    → IsSound w
    → w.phase n ≢ unborn
    → ((k : Ticket) → (k == n) ≡ false → answers k s ds ≡ answers k w.state w.delivered)
    → Owed p (answers n s ds)
    → Keyed w.next (map_of s)
    → All IsOwn ds
    → (IsPoison w.state → IsPoison s)
    → IsSound (record w { phase = at w.phase n p; state = s; delivered = ds })
changed w n p s ds h b others owe keyed own poisoned = record {
  taken = taken_at w.phase n w.next p h.taken (born w h n b);
  owed =
      Owed-at w.phase n p (λ k. answers k w.state w.delivered) (λ k. answers k s ds) h.owed others
        owe;
  keyed = keyed;
  own = own;
  stops = λ q. poisoned (h.stops q);
}

entries-clean_up :
    (n k next : Ticket) (s : MessengerState)
    → next ≤ all_ids
    → n < next
    → Keyed next (map_of s)
    → entries k (map_of (clean_up n s)) ≡ (if k == n then 0 else entries k (map_of s))
unfolding clean_up
entries-clean_up n k next (request_map m) small b h = entries-remove n k next m small b h
entries-clean_up n k next (poison_state e) small b h = ground arith

clean_up-Keyed :
    (n next : Ticket) (s : MessengerState)
    → Keyed next (map_of s)
    → Keyed next (map_of (clean_up n s))
unfolding clean_up
clean_up-Keyed n next (request_map m) h = remove-Keyed (correlation_id n) next m h
clean_up-Keyed n next (poison_state e) h = tt

clean_up-IsPoison : (n : Ticket) (s : MessengerState) → IsPoison s → IsPoison (clean_up n s)
unfolding clean_up
clean_up-IsPoison n (request_map m) h = absurd h
clean_up-IsPoison n (poison_state e) h = tt

pub entries-IsPoison : (k : Ticket) (s : MessengerState) → IsPoison s → entries k (map_of s) ≡ 0
entries-IsPoison k (request_map m) h = absurd h
entries-IsPoison k (poison_state e) h = refl

module _ (w : World) (h : IsSound w) (small : w.next ≤ all_ids) where
  pub register_in-IsSound :
      (s : MessengerState) (n : Ticket) (tagged : Bool)
      → w.state ≡ s
      → w.phase n ≡ preparing
      → IsSound (register_in s n tagged w)
  unfolding register_in insert
  register_in-IsSound (poison_state e) n tagged q ph = ends-IsSound w h n (λ r. cc (ph, r))
  register_in-IsSound (request_map m) n tagged q ph =
      let b : n < w.next = born w h n (λ r. cc (ph, r)) in
      let keyed : Keyed w.next m = subst (λ s. Keyed w.next (map_of s)) q h.keyed in
      let same : (k : Ticket) → entries k (map_of w.state) ≡ entries k m =
        λ k. ap (λ s. entries k (map_of s)) q in
      let none_yet : answers n w.state w.delivered ≡ 0 = at_phase w h n preparing ph in
      changed w n sending (request_map (insert (correlation_id n) _ m)) w.delivered h
        (λ r. cc (ph, r))
        (λ k other. ground (arith, entries-remove n k w.next m small b keyed, same k))
        (ground (arith, entries-remove n n w.next m small b keyed, same n, none_yet))
        ((refl, b), remove-Keyed (correlation_id n) w.next m keyed) h.own
        (λ poisoned. absurd (subst IsPoison q poisoned))

  pub cancel-IsSound : (n : Ticket) → w.phase n ≡ sending → IsSound (cancel n w)
  unfolding cancel
  cancel-IsSound n ph =
      let b : n < w.next = born w h n (λ r. cc (ph, r)) in
      let owe : answers n w.state w.delivered ≡ 1 = at_phase w h n sending ph in
      changed w n over (clean_up n w.state) w.delivered h (λ r. cc (ph, r))
        (λ k other. ground (arith, entries-clean_up n k w.next w.state small b h.keyed))
        (ground (arith, entries-clean_up n n w.next w.state small b h.keyed, owe))
        (clean_up-Keyed n w.next w.state h.keyed) h.own (clean_up-IsPoison n w.state)

  pub send_failed-IsSound :
      (n : Ticket) (e : RequestError) → w.phase n ≡ sending → IsSound (send_failed n e w)
  unfolding send_failed
  send_failed-IsSound n e ph =
      let b : n < w.next = born w h n (λ r. cc (ph, r)) in
      let owe : answers n w.state w.delivered ≡ 1 = at_phase w h n sending ph in
      let t = poison-Settles w.next e w.state h.keyed in
      let next = (poison e w.state).0 in
      let sent = (poison e w.state).1 in
      changed w n over (clean_up n next) (sent ++ w.delivered) h (λ r. cc (ph, r))
        (λ k other. ground (
          arith,
          entries-clean_up n k w.next next small b t.keyed,
          told-append k sent w.delivered,
          t.same k,
        ))
        (ground (
          arith,
          entries-clean_up n n w.next next small b t.keyed,
          told-append n sent w.delivered,
          t.same n,
          owe,
        ))
        (clean_up-Keyed n w.next next t.keyed) (All-append sent w.delivered t.own h.own)
        (λ _. clean_up-IsPoison n next (poison-IsPoison e w.state))

  pub receive-IsSound :
      (max : ℕ) (stream : List ℕ) → IsSound (receive (read_message max stream).0 w)
  unfolding receive
  receive-IsSound max stream =
      let outcome = (read_message max stream).0 in
      let turn = worker_turn outcome w.state in
      let t =
        worker_turn-TurnSettles w.next outcome w.state (read_message-not_crashed max stream) small
          (one w h) h.keyed in
      record {
        taken = h.taken;
        owed = λ k.
            let e : answers k turn.state (turn.sent ++ w.delivered)
                ≡ answers k w.state w.delivered =
              omega (arith, told-append k turn.sent w.delivered, t.settles.same k) in
            subst (Owed (w.phase k)) (sym e) (h.owed k);
        keyed = t.settles.keyed;
        own = All-append turn.sent w.delivered t.settles.own h.own;
        stops = t.stops;
      }
