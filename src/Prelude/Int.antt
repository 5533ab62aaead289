-- ===== src/Prelude/Int.antt =====
-- int64_t as an integer in range, and the casts to and from uint64_t.
use Prim.Native.Nat.{ℕ, zero, suc, ◌+◌, ◌-◌, ◌^◌, ◌≤◌, ◌<◌}
use mathlib.Core.Path.{◌≡◌, refl}
use mathlib.Core.Bool.{Bool, true, false}
use native.Mathlib.Omega.{arith}
use php_parallax.Prelude.Tests.{ltb, if◌then◌else◌}

-- `negsuc n` is -(n + 1).
pub data ℤ : Type 0 where
  pos : ℕ → ℤ
  negsuc : ℕ → ℤ

abbrev pub IsI64 : ℤ → Type 0
IsI64 (pos n) = n < 2 ^ 63
IsI64 (negsuc n) = n < 2 ^ 63

abbrev pub i64_max : ℤ
i64_max = pos (2 ^ 63 - 1)

-- INT_MAX
abbrev pub i32_max : ℤ
i32_max = pos (2 ^ 31 - 1)

-- In the range of an int.
unfoldable pub is_i32 : ℤ → Bool
is_i32 (pos n) = ltb n (2 ^ 31)
is_i32 (negsuc n) = ltb n (2 ^ 31)

pub is_i32-pos : (n : ℕ) → n < 2 ^ 31 → is_i32 (pos n) ≡ true
unfolding is_i32
is_i32-pos n h = ground arith

-- `(uint64_t)i`
unfoldable pub to_u64 : ℤ → ℕ
to_u64 (pos n) = n
to_u64 (negsuc n) = 2 ^ 64 - suc n

-- `(int64_t)u`
unfoldable pub of_u64 : ℕ → ℤ
of_u64 u = if ltb u (2 ^ 63) then pos u else negsuc (2 ^ 64 - u - 1)

pub of_u64-to_u64 : (i : ℤ) → IsI64 i → of_u64 (to_u64 i) ≡ i
unfolding of_u64 to_u64
of_u64-to_u64 (pos n) h = ground arith
of_u64-to_u64 (negsuc n) h = ground arith

pub to_u64-lt : (i : ℤ) → IsI64 i → to_u64 i < 2 ^ 64
unfolding to_u64
to_u64-lt (pos n) h = omega arith
to_u64-lt (negsuc n) h = omega arith

pub of_u64-IsI64 : (u : ℕ) → u < 2 ^ 64 → IsI64 (of_u64 u)
unfolding of_u64
of_u64-IsI64 u h = ground arith

-- `a < b` on signed integers.
abbrev pub ltz : ℤ → ℤ → Bool
ltz (pos a) (pos b) = ltb a b
ltz (pos a) (negsuc b) = false
ltz (negsuc a) (pos b) = true
ltz (negsuc a) (negsuc b) = ltb b a

-- `a + 1`
abbrev pub succ : ℤ → ℤ
succ (pos n) = pos (suc n)
succ (negsuc zero) = pos 0
succ (negsuc (suc n)) = negsuc n

-- `--n` on an int.
abbrev pub pred_int : ℤ → ℤ
pred_int (pos zero) = negsuc 0
pred_int (pos (suc n)) = pos n
pred_int (negsuc n) = negsuc (suc n)

-- `is n == 0`
abbrev pub is_zero : ℤ → Bool
is_zero (pos zero) = true
is_zero _ = false

abbrev pub pos_part : ℤ → ℕ
pos_part (pos n) = n
pos_part (negsuc n) = 0

abbrev pub neg_part : ℤ → ℕ
neg_part (pos n) = 0
neg_part (negsuc n) = suc n

infix 50 ◌≤ℤ◌ ◌<ℤ◌
abbrev pub ◌≤ℤ◌ : ℤ → ℤ → Type 0
a ≤ℤ b = pos_part a + neg_part b ≤ pos_part b + neg_part a

abbrev pub ◌<ℤ◌ : ℤ → ℤ → Type 0
a <ℤ b = pos_part a + neg_part b < pos_part b + neg_part a

pub ltz_true : (a b : ℤ) → ltz a b ≡ true → a <ℤ b
ltz_true (pos a) (pos b) h = ground arith
ltz_true (pos a) (negsuc b) h = cc
ltz_true (negsuc a) (pos b) h = omega arith
ltz_true (negsuc a) (negsuc b) h = ground arith

pub ltz_false : (a b : ℤ) → ltz a b ≡ false → b ≤ℤ a
ltz_false (pos a) (pos b) h = ground arith
ltz_false (pos a) (negsuc b) h = omega arith
ltz_false (negsuc a) (pos b) h = cc
ltz_false (negsuc a) (negsuc b) h = ground arith

pub lt→ltz : (a b : ℤ) → a <ℤ b → ltz a b ≡ true
lt→ltz (pos a) (pos b) h = ground arith
lt→ltz (pos a) (negsuc b) h = absurd (omega arith)
lt→ltz (negsuc a) (pos b) h = refl
lt→ltz (negsuc a) (negsuc b) h = ground arith

pub lt_succ : (a : ℤ) → a <ℤ succ a
lt_succ (pos n) = omega arith
lt_succ (negsuc zero) = omega arith
lt_succ (negsuc (suc n)) = omega arith

pub succ_pos : (a : ℤ) → negsuc 0 ≤ℤ a → (n : ℕ) × (succ a ≡ pos n)
succ_pos (pos n) h = (suc n, refl)
succ_pos (negsuc zero) h = (0, refl)
succ_pos (negsuc (suc n)) h = absurd (omega arith)

pub succ_le : (a b : ℤ) → a <ℤ b → succ a ≤ℤ b
succ_le (pos n) b h = omega arith
succ_le (negsuc zero) b h = omega arith
succ_le (negsuc (suc n)) b h = omega arith
