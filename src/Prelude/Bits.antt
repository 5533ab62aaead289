-- ===== src/Prelude/Bits.antt =====
-- The bit operations of C on unsigned words, as arithmetic.
use Prim.Native.Nat.{
  ℕ, zero, suc, ◌+◌, ◌*◌, ◌/◌, ◌%◌, ◌^◌, ◌≤◌, ◌<◌, min, max, bit_and, bit_or, digits,
  bit_and-bitwise, bit_or-bitwise,
}
use mathlib.Core.Path.{◌≡◌, refl, ap}
use native.Mathlib.Omega.{arith}
use native.Mathlib.Nat.{pow-suc}

-- A result stored in a uint64_t.
abbrev pub u64 : ℕ → ℕ
u64 n = n % 2 ^ 64

-- What `bit_and` and `bit_or` say of their lowest binary digit, from `digits` for any two functions.
module _ (alone : ℕ → ℕ) (mix : ℕ → ℕ → ℕ) where
  -- Two bounds on the number of digits, both large enough, give the same number.
  digits_bounds :
      (x y bound other : ℕ)
      → x ≤ bound
      → x ≤ other
      → digits alone mix bound x y ≡ digits alone mix other x y
  digits_bounds zero y zero zero low high = refl
  digits_bounds zero y zero (suc other) low high = refl
  digits_bounds zero y (suc bound) zero low high = refl
  digits_bounds zero y (suc bound) (suc other) low high = refl
  digits_bounds (suc x) y zero other low high = absurd (omega arith)
  digits_bounds (suc x) y (suc bound) zero low high = absurd (omega arith)
  digits_bounds (suc x) y (suc bound) (suc other) low high =
      let half = digits_bounds (suc x / 2) (y / 2) bound other (omega arith) (omega arith) in
      ap (λ (t : ℕ). t * 2 + mix (suc x % 2) (y % 2)) half

bit_and_step : (a b : ℕ) → bit_and a b ≡ bit_and (a / 2) (b / 2) * 2 + min (a % 2) (b % 2)
bit_and_step zero y = omega (arith, bit_and-bitwise 0 y, bit_and-bitwise 0 (y / 2))
bit_and_step (suc x) y =
    let half =
      digits_bounds (λ t. zero) min (suc x / 2) (y / 2) x (suc x / 2) (omega arith) (omega arith) in
    omega (arith, half, bit_and-bitwise (suc x) y, bit_and-bitwise (suc x / 2) (y / 2))

bit_or_step : (a b : ℕ) → bit_or a b ≡ bit_or (a / 2) (b / 2) * 2 + max (a % 2) (b % 2)
bit_or_step zero y = omega (arith, bit_or-bitwise 0 y, bit_or-bitwise 0 (y / 2))
bit_or_step (suc x) y =
    let half =
      digits_bounds (λ t. t) max (suc x / 2) (y / 2) x (suc x / 2) (omega arith) (omega arith) in
    omega (arith, half, bit_or-bitwise (suc x) y, bit_or-bitwise (suc x / 2) (y / 2))

-- A mask without a one leaves nothing; `k` bounds the argument.
bit_and_nothing : (k x : ℕ) → x ≤ k → bit_and x 0 ≡ 0
bit_and_nothing k zero small = refl
bit_and_nothing (suc k) (suc x) small =
    omega (arith, bit_and_nothing k (suc x / 2) (omega arith), bit_and_step (suc x) 0)
bit_and_nothing zero (suc x) small = absurd (omega arith)

bit_and-one : (a : ℕ) → bit_and a 1 ≡ a % 2
bit_and-one a = omega (arith, bit_and_nothing (a / 2) (a / 2) (omega arith), bit_and_step a 1)

bit_and_three : (a : ℕ) → bit_and a 3 ≡ a % 4
bit_and_three a = omega (arith, bit_and_step a 3, bit_and-one (a / 2))

bit_and_fifteen : (a : ℕ) → bit_and a 15 ≡ a % 16
bit_and_fifteen a =
    omega (arith, bit_and_step a 15, bit_and_step (a / 2) 7, bit_and_three (a / 2 / 2))

-- `byte & 0x7f`
pub low_seven : (a : ℕ) → bit_and a 0x7f ≡ a % 128
low_seven a = omega (
  arith,
  bit_and_step a 0x7f,
  bit_and_step (a / 2) 0x3f,
  bit_and_step (a / 2 / 2) 0x1f,
  bit_and_fifteen (a / 2 / 2 / 2),
)

bit_and_eight : (a : ℕ) → bit_and a 8 ≡ a / 8 % 2 * 8
bit_and_eight a = omega (
  arith,
  bit_and_step a 8,
  bit_and_step (a / 2) 4,
  bit_and_step (a / 2 / 2) 2,
  bit_and-one (a / 2 / 2 / 2),
)

-- `byte & 0x80`
pub top_bit : (a : ℕ) → bit_and a 0x80 ≡ a / 128 % 2 * 128
top_bit a = omega (
  arith,
  bit_and_step a 0x80,
  bit_and_step (a / 2) 0x40,
  bit_and_step (a / 2 / 2) 0x20,
  bit_and_step (a / 2 / 2 / 2) 0x10,
  bit_and_eight (a / 2 / 2 / 2 / 2),
)

bit_or_eight : (a : ℕ) → bit_or a 8 % 16 ≡ a % 8 + 8
bit_or_eight a = omega (
  arith,
  bit_or_step a 8,
  bit_or_step (a / 2) 4,
  bit_or_step (a / 2 / 2) 2,
  bit_or_step (a / 2 / 2 / 2) 1,
)

-- `(uint8_t)(v | 0x80)`
pub set_top_bit : (a : ℕ) → bit_or a 0x80 % 256 ≡ a % 128 + 128
set_top_bit a = omega (
  arith,
  bit_or_step a 0x80,
  bit_or_step (a / 2) 0x40,
  bit_or_step (a / 2 / 2) 0x20,
  bit_or_step (a / 2 / 2 / 2) 0x10,
  bit_or_eight (a / 2 / 2 / 2 / 2),
)

bit_or_double : (v x : ℕ) → bit_or v (x * 2) ≡ bit_or (v / 2) x * 2 + v % 2
bit_or_double v x =
    let half : x * 2 / 2 ≡ x = omega arith in
    let step : bit_or v (x * 2) ≡ bit_or (v / 2) x * 2 + max (v % 2) (x * 2 % 2) =
      rw half at (bit_or_step v (x * 2)) in
    omega (arith, step)

shift_double : (g s : ℕ) → g * 2 ^ suc s ≡ g * 2 ^ s * 2
shift_double g s = rw (pow-suc 2 s) (omega arith)

-- `v | (g << s)` adds where `v` has no bit from `s` on.
pub bit_or_shifted : (s v g : ℕ) → v < 2 ^ s → bit_or v (g * 2 ^ s) ≡ v + g * 2 ^ s
bit_or_shifted zero zero g h = omega (arith, bit_or-bitwise 0 (g * 1))
bit_or_shifted zero (suc v) g h = absurd (omega arith)
bit_or_shifted (suc s) v g h =
    let ih = bit_or_shifted s (v / 2) g (omega (arith, pow-suc 2 s)) in
    rw shift_double (omega (arith, bit_or_double v (g * 2 ^ s), ih))

-- `|` stays within the bits of its operands.
pub bit_or-lt : (s a b : ℕ) → a < 2 ^ s → b < 2 ^ s → bit_or a b < 2 ^ s
bit_or-lt zero zero b ha hb = omega (arith, (bit_or-bitwise 0 b))
bit_or-lt zero (suc a) b ha hb = absurd (omega arith)
bit_or-lt (suc s) a b ha hb = omega (
  arith,
  pow-suc 2 s,
  bit_or_step a b,
  bit_or-lt s (a / 2) (b / 2) (omega (arith, pow-suc 2 s)) (omega (arith, pow-suc 2 s)),
)

pub two_pow_pos : (s : ℕ) → 0 < 2 ^ s
two_pow_pos zero = omega arith
two_pow_pos (suc s) = omega (arith, pow-suc 2 s, two_pow_pos s)
