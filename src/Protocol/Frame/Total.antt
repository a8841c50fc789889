-- ===== src/Protocol/Frame/Total.antt =====
-- The `expect` of `read_message` in src/protocol/frame.rs.
use rskafka.Prelude.{
  ℕ, ◌≡◌, ◌≢◌, ◌⊎◌, refl, arith, Bool-cases, inl, inr, leb, ltb, leb→le, List, length, take, drop,
  length-take,
}
use rskafka.Prelude.Int.{ℤ, pos, negsuc}
use rskafka.Prelude.Result.{ok}
use rskafka.Protocol.Traits.Laws.{bind_ok, read_exact_enough, read_exact_eof}
use rskafka.Protocol.Primitives.Ints.{half32, read_int, read_int32, from_be_bytes}
use rskafka.Protocol.Frame.{
  Skipped, past, cut_off, out_of_rounds, crashed, skip, skip_message, take_message, read_body,
  read_message,
}

Skipped-cases : (k : Skipped) → ((s : List ℕ) × (k ≡ past s)) ⊎ (k ≡ cut_off) ⊎ (k ≡ out_of_rounds)
Skipped-cases (past s) = inl (s, refl)
Skipped-cases cut_off = inr (inl refl)
Skipped-cases out_of_rounds = inr (inr refl)

skip_message-not_crashed : (max len : ℕ) (s : List ℕ) → (skip_message max len s).0 ≢ crashed
unfolding skip_message
skip_message-not_crashed max len s e = elim (Skipped-cases (skip len max len s)) [
  | inl (rest, q) ↦ cc (rw (q, skip_message) at e)
  | inr (inl q) ↦ cc (rw (q, skip_message) at e)
  | inr (inr q) ↦ cc (rw (q, skip_message) at e)
]

take_message-not_crashed : (len : ℕ) (s : List ℕ) → (take_message len s).0 ≢ crashed
unfolding take_message
take_message-not_crashed len s e = elim (Bool-cases (leb len (length s))) [
  | inl q ↦ cc (rw (read_exact_enough len s (leb→le _ _ q), take_message) at e)
  | inr q ↦ cc (rw (read_exact_eof len s (ground arith), take_message) at e)
]

body-not_crashed : (max : ℕ) (len : ℤ) (s : List ℕ) → (read_body max len s).0 ≢ crashed
unfolding read_body
body-not_crashed max (negsuc n) s e = cc
body-not_crashed max (pos len) s e = elim (Bool-cases (ltb max len)) [
  | inl over ↦ skip_message-not_crashed max len s (rw over at e)
  | inr within ↦ take_message-not_crashed len s (rw within at e)
]

read_int32_four :
    (bs : List ℕ) → length bs ≡ 4 → read_int32 bs ≡ ok (from_be_bytes half32 (take 4 bs), drop 4 bs)
unfolding read_int32 read_int
read_int32_four bs h = bind_ok _ _ bs (read_exact_enough 4 bs (omega arith))

-- The length field is four bytes, which hold an INT32.
pub read_message-not_crashed : (max : ℕ) (s : List ℕ) → (read_message max s).0 ≢ crashed
unfolding read_message
read_message-not_crashed max s e = elim (Bool-cases (leb 4 (length s))) [
  | inl q ↦
      let four : length (take 4 s) ≡ 4 = ground (arith, length-take 4 s) in
      body-not_crashed max _ _ (
        rw (read_exact_enough 4 s (leb→le _ _ q), read_int32_four (take 4 s) four, read_message) at
          e)
  | inr q ↦ cc (rw (read_exact_eof 4 s (ground arith), read_message) at e)
]
