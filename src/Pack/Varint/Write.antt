-- ===== src/Pack/Varint/Write.antt =====
-- What `varint_write` stores, in plain arithmetic, and how many bytes that is.
use php_parallax.Prelude.{
  ℕ, zero, suc, ◌+◌, ◌/◌, ◌%◌, ◌^◌, ◌≤◌, ◌<◌, arith, [], ◌∷◌, ◌≡◌, if◌then◌else◌, ltb, length, All,
}
use php_parallax.Prelude.Bits.{set_top_bit}
use php_parallax.Prelude.Order.{lt_wf}
use php_parallax.Value.{Bytes, IsByte}
use php_parallax.Pack.Varint.{write_loop, varint_write}
use mathlib.Core.WellFounded.{Acc}

-- The base-128 digits of `v`, lowest first, marked by 128 but for the last: at most `k + 1` digits.
unfoldable pub groups : ℕ → ℕ → Bytes
groups zero v = v ∷ []
groups (suc k) v =
    let rest = groups k (v / 128) in if ltb v 128 then v ∷ [] else (v % 128 + 128) ∷ rest

write_loop-groups : (k v : ℕ) (w : Acc ◌<◌ v) → v < 128 ^ suc k → write_loop v w ≡ groups k v
unfolding write_loop groups
write_loop-groups zero v (Acc.intro _ smaller) h = ground arith
write_loop-groups (suc k) v (Acc.intro _ smaller) h =
    grind (
      arith,
      set_top_bit v,
      λ (w : Acc ◌<◌ (v / 128)). write_loop-groups k (v / 128) w (omega arith),
    )

-- `varint_write` stores the base-128 digits of every uint64_t, lowest first, marked by 128 but for
-- the last.
pub varint_write-groups : (v : ℕ) → v < 2 ^ 64 → varint_write v ≡ groups 9 v
unfolding varint_write
varint_write-groups v h = write_loop-groups 9 v (lt_wf.apply v) (omega arith)

pub groups-IsByte : (k v : ℕ) → v < 128 ^ suc k → All IsByte (groups k v)
unfolding groups
groups-IsByte zero v h = omega arith
groups-IsByte (suc k) v h = ground (arith, groups-IsByte k (v / 128) (omega arith))

pub length-groups : (k v : ℕ) → (1 ≤ length (groups k v)) × (length (groups k v) ≤ k + 1)
unfolding groups
length-groups zero v = omega arith
length-groups (suc k) v = ground (arith, length-groups k (v / 128))
