-- ===== src/Memory/Regions.antt =====
-- Membership in a union of regions.
use php_parallax.Prelude.{ℕ, ◌≡◌, refl, arith, Bool, true, false, ◌||◌, ◌==◌}

pub ==-refl : (n : ℕ) → n == n ≡ true
==-refl n = ground arith

pub or_left : (a b : Bool) → a ≡ true → (a || b) ≡ true
or_left a b h = rw h

pub or_right : (a b : Bool) → b ≡ true → (a || b) ≡ true
or_right true b h = refl
or_right false b h = h

pub or_false : (a b : Bool) → (a || b) ≡ false → (a ≡ false) × (b ≡ false)
or_false true b h = absurd (cc h)
or_false false b h = (refl, h)

pub test_flip : (a q : ℕ) → (a == q) ≡ false → (q == a) ≡ false
test_flip a q m = ground arith
