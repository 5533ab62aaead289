-- ===== src/Pack/Varint/Read.antt =====
-- `varint_read` on what `varint_write` stored, and on any input.
use php_parallax.Prelude.{
  ℕ, zero, suc, ◌+◌, ◌*◌, ◌/◌, ◌%◌, ◌^◌, ◌≤◌, ◌<◌, bit_and, bit_or, arith, ◌∷◌, ◌++◌, ◌≡◌, ap, ◌∙◌,
  inl, inr, ltb, Bool-cases, ltb→lt, done,
}
use php_parallax.Prelude.Bits.{u64, low_seven, top_bit, bit_or_shifted}
use php_parallax.Value.{Bytes}
use php_parallax.Pack.Varint.{varint_write, read_loop, varint_read}
use php_parallax.Pack.Varint.Write.{groups, varint_write-groups}
use native.Mathlib.Numerals.{towards_suc}

-- One round adds the group of the byte above the bits read so far.
add_group :
    (byte v shift : ℕ)
    → v < 2 ^ shift
    → v + byte % 128 * 2 ^ shift < 2 ^ 64
    → bit_or v (u64 (bit_and byte 0x7f * 2 ^ shift)) ≡ v + byte % 128 * 2 ^ shift
add_group byte v shift h fits = rw (low_seven byte) (
    let small : u64 (byte % 128 * 2 ^ shift) ≡ byte % 128 * 2 ^ shift = omega arith in
    rw small (bit_or_shifted shift v (byte % 128) h))

-- `2 ^ (s + 7)` and a number over it, cut into its lowest group and the rest.
power_up : (s : ℕ) → 2 ^ (s + 7) ≡ 2 ^ s * 128
power_up s = simp towards_suc (omega arith)

cut_group : (s w : ℕ) → w % 128 * 2 ^ s + w / 128 * 2 ^ (s + 7) ≡ w * 2 ^ s
cut_group s w =
    let whole : (w % 128 + w / 128 * 128) * 2 ^ s ≡ w * 2 ^ s =
      ap (λ (t : ℕ). t * 2 ^ s) (omega arith) in
    rw (power_up s) (omega (arith, whole))

last_round :
    (w v shift : ℕ) (rest : Bytes)
    → w < 128
    → v < 2 ^ shift
    → v + w * 2 ^ shift < 2 ^ 64
    → read_loop (w ∷ rest) v shift ≡ done (v + w * 2 ^ shift, rest)
unfolding read_loop
last_round w v shift rest hw hv fits =
    let e : w % 128 ≡ w = omega arith in ground (arith, top_bit w, rw e at (add_group w v shift hv))

inner_round :
    (g v shift : ℕ) (rest : Bytes)
    → g < 128
    → shift + 7 < 64
    → v < 2 ^ shift
    → v + g * 2 ^ shift < 2 ^ 64
    → read_loop ((g + 128) ∷ rest) v shift ≡ read_loop rest (v + g * 2 ^ shift) (shift + 7)
unfolding read_loop
inner_round g v shift rest hg hs hv fits =
    let e : (g + 128) % 128 ≡ g = omega arith in
    let added : bit_or v (u64 (bit_and (g + 128) 0x7f * 2 ^ shift)) ≡ v + g * 2 ^ shift =
      rw e at (add_group (g + 128) v shift hv (rw e fits)) in
    rw added (ground (arith, top_bit (g + 128)))

group-le : (g t : ℕ) → g < 128 → g * t ≤ 127 * t
group-le g t h = grind arith

-- `w` is what is still to be read, from bit `shift` on.
read_loop-groups :
    (k w v shift : ℕ) (rest : Bytes)
    → w < 128 ^ suc k
    → shift + 7 * k < 64
    → v < 2 ^ shift
    → v + w * 2 ^ shift < 2 ^ 64
    → read_loop (groups k w ++ rest) v shift ≡ done (v + w * 2 ^ shift, rest)
unfolding groups
read_loop-groups zero w v shift rest hw hs hv fits = last_round w v shift rest hw hv fits
read_loop-groups (suc k) w v shift rest hw hs hv fits = elim (Bool-cases (ltb w 128)) [
  | inl low ↦ rw low (last_round w v shift rest (ltb→lt w 128 low) hv fits)
  | inr high ↦ rw high (
      inner_round (w % 128) v shift (groups k (w / 128) ++ rest) (omega arith) (omega arith) hv
        (omega (arith, cut_group shift w))
      ∙ read_loop-groups k (w / 128) (v + w % 128 * 2 ^ shift) (shift + 7) rest (omega arith)
          (omega arith)
          (omega (arith, power_up shift, group-le (w % 128) (2 ^ shift) (omega arith)))
          (omega (arith, cut_group shift w))
      ∙ ap (λ t. done (t, rest)) (omega (arith, cut_group shift w)))
]

-- `varint_read` gives back the uint64_t that `varint_write` stored, and stops right behind it,
-- whatever bytes follow.
pub varint_read-varint_write :
    (v : ℕ) (rest : Bytes) → v < 2 ^ 64 → varint_read (varint_write v ++ rest) ≡ done (v, rest)
unfolding varint_read
varint_read-varint_write v rest h = rw (varint_write-groups v h) (
    read_loop-groups 9 v 0 0 rest (omega arith) (omega arith) (omega arith) (omega arith)
    ∙ ground arith)
