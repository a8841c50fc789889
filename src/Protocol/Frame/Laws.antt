-- ===== src/Protocol/Frame/Laws.antt =====
-- Framing of src/protocol/frame.rs: what is written is read back, one message at a time, and a
-- message over the limit is passed over as a whole.
use rskafka.Prelude.{
  ℕ, zero, suc, ◌+◌, ◌-◌, ◌≤◌, ◌<◌, ◌≡◌, refl, ap, sym, subst, append-nil, ◌∙◌, inl, inr, arith,
  min, leb, ltb, ◌==◌, if◌then◌else◌, true, false, Bool-cases, lt→ltb, le→leb, leb→le, lt→leb_false,
  List, [], ◌∷◌, ◌++◌, append_assoc, length, length-append, length-drop, drop, drop-append,
}
use rskafka.Prelude.Int.{pos}
use rskafka.Prelude.Result.{ok}
use rskafka.Protocol.Traits.{read_exact}
use rskafka.Protocol.Traits.Laws.{read_exact-Reads, read_exact_eof, read_exact_enough}
use rskafka.Protocol.VecBuilder.Refinement.{drop-add}
use rskafka.Protocol.Primitives.Ints.{half32, read_int, read_int32, to_be_bytes}
use rskafka.Protocol.Primitives.Ints.Laws.{int-Reads, length-to_be_bytes}
use rskafka.Protocol.Frame.{
  message_too_large, message, failed, Skipped, past, cut_off, out_of_rounds, skip, skip_message,
  take_message, read_body, read_message, write_message,
}

-- What skipping comes to: all bytes of the message, or the end of the stream.
abbrev skip_spec : ℕ → List ℕ → Skipped
skip_spec n s = if leb n (length s) then past (drop n s) else cut_off

skip_spec-zero : (n : ℕ) (s : List ℕ) → n ≡ 0 → past s ≡ skip_spec n s
skip_spec-zero zero s h = rw (le→leb 0 (length s) (omega arith)) refl
skip_spec-zero (suc n) s h = absurd (omega arith)

skip_spec-split :
    (k n : ℕ) (s : List ℕ) → k ≤ n → k ≤ length s → skip_spec (n - k) (drop k s) ≡ skip_spec n s
skip_spec-split k n s h fits = elim (Bool-cases (leb n (length s))) [
  | inl all ↦
      let e : k + (n - k) ≡ n = omega arith in
      rw (all, le→leb (n - k) (length (drop k s)) (omega (arith, leb→le _ _ all, length-drop k s)))
        (ap past (sym (drop-add k (n - k) s) ∙ ap (λ j. drop j s) e))
  | inr short ↦
      rw (short, lt→leb_false (n - k) (length (drop k s)) (ground (arith, length-drop k s))) refl
]

skip-skip_spec :
    (rounds max n : ℕ) (s : List ℕ) → 0 < max → n ≤ rounds → skip rounds max n s ≡ skip_spec n s
unfolding skip
skip-skip_spec zero max n s h enough =
    let e : (n == 0) ≡ true = ground arith in rw e (skip_spec-zero n s (omega arith))
skip-skip_spec (suc rounds) max n s h enough = elim (Bool-cases (n == 0)) [
  | inl done ↦ rw (done, skip) (skip_spec-zero n s (ground arith))
  | inr more ↦ elim (Bool-cases (leb (min max n) (length s))) [
    | inl fits ↦
        rw (more, read_exact_enough (min max n) s (leb→le _ _ fits), skip)
          (skip-skip_spec rounds max (n - min max n) (drop (min max n) s) h (ground arith)
            ∙ skip_spec-split (min max n) n s (omega arith) (leb→le _ _ fits))
    | inr short ↦
        rw (more, read_exact_eof (min max n) s (ground arith), skip)
          (rw (lt→leb_false n (length s) (ground arith)) refl)
  ]
]

-- The length field in front of a message.
abbrev len_field : ℕ → List ℕ
len_field n = to_be_bytes 4 half32 (pos n)

read_message_head :
    (max n : ℕ) (rest : List ℕ)
    → n < half32
    → read_message max (len_field n ++ rest) ≡ read_body max (pos n) rest
unfolding read_message
read_message_head max n rest h =
    let bytes = len_field n in
    let four : read_exact 4 (bytes ++ rest) ≡ ok (bytes, rest) =
      subst (λ k. read_exact k (bytes ++ rest) ≡ ok (bytes, rest))
        (length-to_be_bytes 4 half32 refl (pos n)) ((read_exact-Reads bytes).at rest) in
    let value : read_int32 bytes ≡ ok (pos n, []) =
      unfold read_int32 in
      subst (λ bs. read_int 4 half32 bs ≡ ok (pos n, [])) (append-nil bytes)
        ((int-Reads 4 half32 refl (pos n) h).at []) in
    rw (four, value, read_message) refl

write_message_bytes :
    (msg : List ℕ) → length msg < half32 → write_message msg ≡ ok (len_field (length msg) ++ msg)
unfolding write_message
write_message_bytes [] h = refl
write_message_bytes (b ∷ bs) h = rw (lt→ltb _ _ h) refl

within_limit :
    (msg : List ℕ) (max : ℕ) (rest : List ℕ)
    → length msg ≤ max
    → read_body max (pos (length msg)) (msg ++ rest) ≡ (message msg, rest)
unfolding read_body take_message
within_limit msg max rest fits =
    let e : ltb max (length msg) ≡ false = ground arith in
    rw (e, (read_exact-Reads msg).at rest, take_message) refl

over_limit :
    (msg : List ℕ) (max : ℕ) (rest : List ℕ)
    → 0 < max
    → max < length msg
    → read_body max (pos (length msg)) (msg ++ rest)
      ≡ (failed (message_too_large max (length msg)), rest)
unfolding read_body skip_message
over_limit msg max rest some over =
    let skipped : skip (length msg) max (length msg) (msg ++ rest) ≡ past rest =
      skip-skip_spec (length msg) max (length msg) (msg ++ rest) some (omega arith)
      ∙ rw
          (
            le→leb (length msg) (length (msg ++ rest)) (omega (arith, length-append msg rest)),
            drop-append msg rest,
          )
          refl in
    rw (lt→ltb _ _ over, skipped, skip_message) refl

-- A message of fewer than 2 ^ 31 bytes that is within the receiver's limit is sent, and received as
-- it is, and the stream stands right behind it.
pub frame_round_trip :
    (msg : List ℕ) (max : ℕ)
    → length msg < half32
    → length msg ≤ max
    → (bs : List ℕ) × (write_message msg ≡ ok bs)
      × ((rest : List ℕ) → read_message max (bs ++ rest) ≡ (message msg, rest))
frame_round_trip msg max h fits = (
  len_field (length msg) ++ msg,
  write_message_bytes msg h,
  λ rest.
      ap (read_message max) (append_assoc (len_field (length msg)) msg rest)
      ∙ read_message_head max (length msg) (msg ++ rest) h
      ∙ within_limit msg max rest fits,
)

-- A message over the limit is thrown away as a whole, so that the next one can be read: the error
-- names the limit and the size, and the stream stands right behind the message. The limit is not 0.
pub frame_too_large :
    (msg : List ℕ) (max : ℕ)
    → length msg < half32
    → 0 < max
    → max < length msg
    → (bs : List ℕ) × (write_message msg ≡ ok bs)
      × ((rest : List ℕ)
          → read_message max (bs ++ rest) ≡ (failed (message_too_large max (length msg)), rest))
frame_too_large msg max h some over = (
  len_field (length msg) ++ msg,
  write_message_bytes msg h,
  λ rest.
      ap (read_message max) (append_assoc (len_field (length msg)) msg rest)
      ∙ read_message_head max (length msg) (msg ++ rest) h
      ∙ over_limit msg max rest some over,
)

-- The code has no case for a limit of 0: no number of rounds brings the skipping of a message to its
-- end, so the loop of the source runs for ever.
pub skip_zero_limit : (rounds n : ℕ) (s : List ℕ) → 0 < n → skip rounds 0 n s ≡ out_of_rounds
unfolding skip
skip_zero_limit zero n s h = ground arith
skip_zero_limit (suc rounds) n s h =
    let busy : (n == 0) ≡ false = ground arith in
    rw (busy, read_exact_enough (min 0 n) s (omega arith), skip)
      (skip_zero_limit rounds (n - min 0 n) (drop (min 0 n) s) (omega arith))
