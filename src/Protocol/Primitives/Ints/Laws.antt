-- ===== src/Protocol/Primitives/Ints/Laws.antt =====
-- Round trips of the integers of src/protocol/primitives.rs, and their sizes on the wire.
use rskafka.Prelude.{
  ℕ, zero, suc, ◌*◌, ◌/◌, ◌%◌, ◌^◌, ◌<◌, ◌≡◌, refl, ap, ◌∙◌, arith, Bool, true, false, List, [],
  ◌∷◌, length, length-append,
}
use mathlib.Core.List.{reverse, reverse-cons, reverse-reverse}
use native.Mathlib.Nat.{pow-suc, mod-eq_of_lt}
use rskafka.Prelude.Int.{ℤ, pos, negsuc, InRange, to_word, from_word}
use rskafka.Protocol.Traits.Laws.{Reads, RoundTrips, Reads→RoundTrips, read_exact-Reads_last}
use rskafka.Protocol.Primitives.Ints.{
  le_bytes, from_le_bytes, to_be_bytes, from_be_bytes, read_int, write_int, half8, half16, half32,
  half64, read_boolean, write_boolean, read_int8, write_int8, read_int16, write_int16, read_int32,
  write_int32, read_int64, write_int64,
}

from_le_bytes-le_bytes : (k n : ℕ) → n < 256 ^ k → from_le_bytes (le_bytes k n) ≡ n
unfolding le_bytes from_le_bytes
from_le_bytes-le_bytes zero n h = omega arith
from_le_bytes-le_bytes (suc k) n h =
    omega (arith, pow-suc 256 k, from_le_bytes-le_bytes k (n / 256) (omega (arith, pow-suc 256 k)))

pub length-le_bytes : (k n : ℕ) → length (le_bytes k n) ≡ k
unfolding le_bytes
length-le_bytes zero n = refl
length-le_bytes (suc k) n = ap suc (length-le_bytes k (n / 256))

pub length-reverse : (xs : List ℕ) → length (reverse xs) ≡ length xs
length-reverse [] = refl
length-reverse (x ∷ xs) =
    ap length (reverse-cons x xs)
    ∙ omega (arith, length-append (reverse xs) (x ∷ []), length-reverse xs)

pub from_word-to_word : (half : ℕ) (z : ℤ) → InRange half z → from_word half (to_word half z) ≡ z
unfolding from_word to_word
from_word-to_word half (pos n) h =
    let fits : n % (2 * half) ≡ n = mod-eq_of_lt (omega arith) in ground (arith, fits)
from_word-to_word half (negsuc n) h = ground arith

to_word-lt : (half : ℕ) (z : ℤ) → InRange half z → to_word half z < 2 * half
unfolding to_word
to_word-lt half (pos n) h = grind arith
to_word-lt half (negsuc n) h = omega arith

module _ (k half : ℕ) (full : 2 * half ≡ 256 ^ k) where
  from_be_bytes-to_be_bytes :
      (z : ℤ) → InRange half z → from_be_bytes half (to_be_bytes k half z) ≡ z
  unfolding from_be_bytes to_be_bytes
  from_be_bytes-to_be_bytes z h =
      let word : ℕ = to_word half z in
      ap (λ bs. from_word half (from_le_bytes bs)) (reverse-reverse (le_bytes k word))
      ∙ ap (from_word half) (from_le_bytes-le_bytes k word (omega (arith, to_word-lt half z h)))
      ∙ from_word-to_word half z h

  pub length-to_be_bytes : (z : ℤ) → length (to_be_bytes k half z) ≡ k
  unfolding to_be_bytes
  length-to_be_bytes z =
      length-reverse (le_bytes k (to_word half z)) ∙ length-le_bytes k (to_word half z)

  pub int-Reads : (z : ℤ) → InRange half z → Reads (read_int k half) (to_be_bytes k half z) z
  unfolding read_int
  int-Reads z h =
      read_exact-Reads_last k (to_be_bytes k half z) (from_be_bytes half) z (length-to_be_bytes z)
        (from_be_bytes-to_be_bytes z h)

  pub int-RoundTrips :
      (z : ℤ) → InRange half z → RoundTrips (read_int k half) (write_int k half z) z
  unfolding write_int
  int-RoundTrips z h = Reads→RoundTrips (int-Reads z h)

pub int8-RoundTrips : (z : ℤ) → InRange half8 z → RoundTrips read_int8 (write_int8 z) z
unfolding read_int8 write_int8
int8-RoundTrips = int-RoundTrips 1 half8 refl

pub int16-RoundTrips : (z : ℤ) → InRange half16 z → RoundTrips read_int16 (write_int16 z) z
unfolding read_int16 write_int16
int16-RoundTrips = int-RoundTrips 2 half16 refl

pub int32-RoundTrips : (z : ℤ) → InRange half32 z → RoundTrips read_int32 (write_int32 z) z
unfolding read_int32 write_int32
int32-RoundTrips = int-RoundTrips 4 half32 refl

pub int64-RoundTrips : (z : ℤ) → InRange half64 z → RoundTrips read_int64 (write_int64 z) z
unfolding read_int64 write_int64
int64-RoundTrips = int-RoundTrips 8 half64 refl

pub boolean-RoundTrips : (b : Bool) → RoundTrips read_boolean (write_boolean b) b
unfolding read_boolean write_boolean
boolean-RoundTrips true = Reads→RoundTrips (read_exact-Reads_last 1 (1 ∷ []) _ true refl refl)
boolean-RoundTrips false = Reads→RoundTrips (read_exact-Reads_last 1 (0 ∷ []) _ false refl refl)
