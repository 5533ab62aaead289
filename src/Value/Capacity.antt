-- ===== src/Value/Capacity.antt =====
-- The builders of value/value.c never write out of bounds: capacity against number of entries.
use php_parallax.Prelude.{
  ℕ, suc, ◌+◌, ◌*◌, ◌^◌, ◌≤◌, ◌<◌, arith, ◌≡◌, refl, ap, true, if◌then◌else◌, ltb, ◌==◌, done,
}
use php_parallax.Value.Types.{Key, Value, Items, nil, item, count, snoc, join}
use php_parallax.Value.Build.{grow, append_kv}

pub count-snoc : (xs : Items) (k : Key) (v : Value) → count (snoc xs k v) ≡ suc (count xs)
count-snoc nil k v = refl
count-snoc (item j w xs) k v = ap suc (count-snoc xs k v)

pub join-snoc :
    (xs : Items) (k : Key) (v : Value) (ys : Items) → join (snoc xs k v) ys ≡ join xs (item k v ys)
join-snoc nil k v ys = refl
join-snoc (item j w xs) k v ys = ap (item j w) (join-snoc xs k v ys)

pub join-nil : (xs : Items) → join xs nil ≡ xs
join-nil nil = refl
join-nil (item k v xs) = ap (item k v) (join-nil xs)

-- The capacity at which entry `n` is written.
unfoldable pub room : ℕ → ℕ → ℕ
room n cap = if n == cap then grow cap else cap

-- Capacities that come from doubling: never below the count, never far above twice the count.
abbrev pub IsRoomy : ℕ → ℕ → Type 0
IsRoomy n cap = (n ≤ cap) × (cap ≤ 2 * n + 4)

-- `grow` doubles without wrapping while three times the count is below half of size_t.
pub room-lt :
    (n cap : ℕ) → IsRoomy n cap → 3 * n < 2 ^ 63 → (n < room n cap) × IsRoomy (suc n) (room n cap)
unfolding room grow
room-lt n cap h small = ground arith

-- An append to such an array stays within its capacity, and leaves such an array.
pub append_kv-done :
    (xs : Items) (cap : ℕ) (k : Key) (v : Value)
    → IsRoomy (count xs) cap
    → 3 * count xs < 2 ^ 63
    → append_kv xs cap k v ≡ done (snoc xs k v, room (count xs) cap)
unfolding append_kv room
append_kv-done xs cap k v h small =
    let fits : ltb (count xs) (room (count xs) cap) ≡ true =
      ground (arith, (room-lt (count xs) cap h small).0) in
    rw fits

-- An append below the capacity does not grow the array.
pub append_kv-fits :
    (xs : Items) (cap : ℕ) (k : Key) (v : Value)
    → count xs < cap
    → append_kv xs cap k v ≡ done (snoc xs k v, cap)
unfolding append_kv
append_kv-fits xs cap k v h = ground arith
