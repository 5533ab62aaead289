-- ===== src/Pack/Varint.antt =====
-- value/pack.c: `varint_write` and `varint_read`, seven bits a byte, lowest group first.
pub mod Write
pub mod Read
pub mod Bounds
use php_parallax.Prelude.{
  ℕ, zero, suc, ◌+◌, ◌*◌, ◌/◌, ◌%◌, ◌^◌, ◌≤◌, ◌<◌, bit_and, bit_or, arith, List, [], ◌∷◌, ◌++◌,
  if◌then◌else◌, ltb, leb, ◌==◌, Outcome, done, refused,
}
use php_parallax.Prelude.Bits.{u64}
use php_parallax.Prelude.Order.{lt_wf}
use php_parallax.Value.{Bytes}
use mathlib.Core.Logic.{dite}
use mathlib.Core.WellFounded.{Acc}
use native.Mathlib.Decide.{dec_le}

pub shift_shrinks : (v : ℕ) → 0x80 ≤ v → v / 128 < v
shift_shrinks v h = omega arith

-- The loop of `varint_write`: the cast to uint8_t is `% 256`, and `v >>= 7` is `v / 128`.
unfoldable pub write_loop : (v : ℕ) → Acc ◌<◌ v → Bytes
write_loop v (Acc.intro _ smaller) =
    dite (dec_le 0x80 v)
      (λ more.
        (bit_or v 0x80 % 256) ∷ write_loop (v / 128) (smaller (v / 128) (shift_shrinks v more)))
      (λ _. v % 256 ∷ [])

-- The bytes that `varint_write` stores at `*p`.
unfoldable pub varint_write : ℕ → Bytes
unfolding write_loop lt_wf dec_le
varint_write v = write_loop v (lt_wf.apply v)

-- The loop of `varint_read` at `*p`; the list is what lies before `end`.
unfoldable pub read_loop : Bytes → ℕ → ℕ → Outcome (ℕ × Bytes)
read_loop [] v shift = refused
read_loop (byte ∷ p) v shift =
    let v' = bit_or v (u64 (bit_and byte 0x7f * 2 ^ shift)) in
    let more = read_loop p v' (shift + 7) in
    if bit_and byte 0x80 == 0 then done (v', p) else if leb 64 (shift + 7) then refused else more

-- The number read, with the bytes from the new `*p` on.
unfoldable pub varint_read : Bytes → Outcome (ℕ × Bytes)
unfolding read_loop
varint_read p = read_loop p 0 0
