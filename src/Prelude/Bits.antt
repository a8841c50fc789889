-- ===== src/Prelude/Bits.antt =====
-- The masks and the disjoint `|=` of the source as arithmetic. The native operations stand for a
-- recursion on binary digits; `or_step` is its law for the lowest digit.
use Prim.Native.Nat.{ℕ, zero, suc, ◌+◌, ◌*◌, ◌/◌, ◌%◌, ◌^◌, ◌≤◌, ◌<◌, min, max, bit_and, bit_or}
use Prim.Native.Nat.{digits, bit_or-bitwise, bit_and-bitwise}
use mathlib.Core.Path.{◌≡◌, refl, ap}
use mathlib.Core.Bool.{Bool, true, ◌&&◌}
use native.Mathlib.Nat.{pow-suc}
use native.Mathlib.Omega.{arith}
use rskafka.Prelude.Tests.{◌==◌}

-- Every value of a small range, by evaluation.
holds_below : (ℕ → Bool) → ℕ → Bool
holds_below p zero = true
holds_below p (suc n) = p n && holds_below p n

holds_below→eq :
    (f g : ℕ → ℕ) (n : ℕ) → holds_below (λ x. f x == g x) n ≡ true → (x : ℕ) → x < n → f x ≡ g x
unfolding holds_below
holds_below→eq f g zero e x h = absurd (omega arith)
holds_below→eq f g (suc n) e x h = ground (arith, holds_below→eq f g n (ground arith) x)

-- c & 0x80 and c | 0x80 on a byte.
pub and_80 : (c : ℕ) → c < 256 → bit_and c 0x80 ≡ c / 128 * 128
unfolding holds_below
and_80 = holds_below→eq _ _ 256 refl

pub or_80 : (c : ℕ) → c < 128 → bit_or c 0x80 ≡ c + 128
unfolding holds_below
or_80 = holds_below→eq _ _ 128 refl

-- More fuel than the number needs changes nothing, whatever is done to the digits.
module _ (z : ℕ → ℕ) (f : ℕ → ℕ → ℕ) where
  digits_enough : (a b n m : ℕ) → a ≤ n → a ≤ m → digits z f n a b ≡ digits z f m a b
  digits_enough zero b zero zero p q = refl
  digits_enough zero b zero (suc m) p q = refl
  digits_enough zero b (suc n) zero p q = refl
  digits_enough zero b (suc n) (suc m) p q = refl
  digits_enough (suc a) b zero m p q = absurd (omega arith)
  digits_enough (suc a) b (suc n) zero p q = absurd (omega arith)
  digits_enough (suc a) b (suc n) (suc m) p q =
      ap (λ (t : ℕ). t * 2 + f (suc a % 2) (b % 2))
        (digits_enough (suc a / 2) (b / 2) n m (omega arith) (omega arith))

zero-bit_or : (b : ℕ) → bit_or 0 b ≡ b
zero-bit_or b = bit_or-bitwise 0 b

or_step : (a b : ℕ) → bit_or a b ≡ bit_or (a / 2) (b / 2) * 2 + max (a % 2) (b % 2)
or_step zero b = omega (arith, zero-bit_or b, zero-bit_or (b / 2))
or_step (suc a) b = omega (
  arith,
  bit_or-bitwise (suc a) b,
  bit_or-bitwise (suc a / 2) (b / 2),
  digits_enough (λ y. y) max (suc a / 2) (b / 2) a (suc a / 2) (omega arith) (omega arith),
)

zero-bit_and : (b : ℕ) → bit_and 0 b ≡ 0
zero-bit_and b = bit_and-bitwise 0 b

and_step : (a b : ℕ) → bit_and a b ≡ bit_and (a / 2) (b / 2) * 2 + min (a % 2) (b % 2)
and_step zero b = omega (arith, zero-bit_and b, zero-bit_and (b / 2))
and_step (suc a) b = omega (
  arith,
  bit_and-bitwise (suc a) b,
  bit_and-bitwise (suc a / 2) (b / 2),
  digits_enough (λ y. 0) min (suc a / 2) (b / 2) a (suc a / 2) (omega arith) (omega arith),
)

bit_and-zero_below : (n a : ℕ) → a ≤ n → bit_and a 0 ≡ 0
bit_and-zero_below n zero h = refl
bit_and-zero_below zero (suc a) h = absurd (omega arith)
bit_and-zero_below (suc n) (suc a) h =
    omega (arith, and_step (suc a) 0, bit_and-zero_below n (suc a / 2) (omega arith))

-- Masks of ones.
pub and_1 : (a : ℕ) → bit_and a 1 ≡ a % 2
and_1 a = omega (arith, and_step a 1, bit_and-zero_below (a / 2) (a / 2) (omega arith))

pub and_7 : (a : ℕ) → bit_and a 7 ≡ a % 8
and_7 a = omega (arith, and_step a 7, and_step (a / 2) 3, and_1 (a / 2 / 2))

pub and_7f : (a : ℕ) → bit_and a 0x7f ≡ a % 128
and_7f a = omega (
  arith,
  and_step a 127,
  and_step (a / 2) 63,
  and_step (a / 2 / 2) 31,
  and_step (a / 2 / 2 / 2) 15,
  and_7 (a / 2 / 2 / 2 / 2),
)

double_shift : (g s : ℕ) → g * 2 ^ suc s ≡ 2 * (g * 2 ^ s)
double_shift g s = omega (arith, ap (λ (t : ℕ). g * t) (pow-suc 2 s))

-- `acc |= g << s` is a sum where `acc` has fewer than `s` bits.
pub or_shifted : (s acc g : ℕ) → acc < 2 ^ s → bit_or acc (g * 2 ^ s) ≡ acc + g * 2 ^ s
or_shifted zero acc g h = ground (arith, zero-bit_or (g * 1))
or_shifted (suc s) acc g h =
    ground
      (arith, or_step acc (g * 2 ^ suc s), double_shift g s, or_shifted s (acc / 2) g (omega arith))

pub bit_or-lt : (k a b : ℕ) → a < 2 ^ k → b < 2 ^ k → bit_or a b < 2 ^ k
bit_or-lt zero a b p q = ground (arith, zero-bit_or b)
bit_or-lt (suc k) a b p q = ground (
  arith,
  or_step a b,
  pow-suc 2 k,
  bit_or-lt k (a / 2) (b / 2) (omega (arith, pow-suc 2 k)) (omega (arith, pow-suc 2 k)),
)
