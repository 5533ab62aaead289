-- ===== src/Pack/Buffer.antt =====
-- value/pack.c: the growable write buffer, and doubles as eight little-endian bytes.
pub mod Writes
pub mod Double
use php_parallax.Prelude.{
  ℕ, zero, suc, ◌+◌, ◌*◌, ◌/◌, ◌%◌, ◌^◌, bit_or, [], ◌∷◌, ◌++◌, if◌then◌else◌, ltb, leb, ◌==◌,
  length, take, drop, Outcome, done, refused, fault, stuck, ◌>>=◌,
}
use php_parallax.Prelude.Bits.{u64}
use php_parallax.Value.{Bytes}
use php_parallax.Pack.Varint.{varint_write}

-- `wbuf_t`: the `len` bytes written so far, and the capacity of `data`.
pub record Wbuf : Type 0 where
  pub bytes : Bytes
  pub cap : ℕ

abbrev pub wbuf_init : Wbuf
wbuf_init = record { bytes = []; cap = 0 }

-- `while (new_cap < need) new_cap *= 2;` in size_t arithmetic. Starting from 64 or more, the product
-- wraps to 0 within 64 rounds, from where the loop of the source never ends.
unfoldable pub double_until : ℕ → ℕ → ℕ → Outcome ℕ
double_until zero new_cap need = stuck
double_until (suc fuel) new_cap need =
    let more = double_until fuel (u64 (new_cap * 2)) need in
    if ltb new_cap need then more else done new_cap

unfoldable pub wbuf_reserve : Wbuf → ℕ → Outcome Wbuf
wbuf_reserve b extra =
    let need = u64 (length b.bytes + extra) in
    if leb need b.cap then done b else (do
      new_cap ← double_until 64 (if b.cap == 0 then 64 else u64 (b.cap * 2)) need
      done (record b { cap = new_cap }))

-- A copy to `data + len`, which must stay within the capacity.
unfoldable pub store : Wbuf → Bytes → Outcome Wbuf
store b p =
    if leb (length b.bytes + length p) b.cap
    then done (record b { bytes = b.bytes ++ p })
    else fault

unfoldable pub wbuf_u8 : Wbuf → ℕ → Outcome Wbuf
wbuf_u8 b v = do b ← wbuf_reserve b 1; store b (v % 256 ∷ [])

unfoldable pub wbuf_bytes : Wbuf → Bytes → Outcome Wbuf
wbuf_bytes b p = do b ← wbuf_reserve b (length p); if ltb 0 (length p) then store b p else done b

unfoldable pub wbuf_varint : Wbuf → ℕ → Outcome Wbuf
wbuf_varint b v = do b ← wbuf_reserve b 10; store b (varint_write v)

-- The bytes `out[i], …` of the loop, `left` of them: `(uint8_t)(bits >> (i * 8))`.
unfoldable pub double_out : ℕ → ℕ → ℕ → Bytes
double_out zero i bits = []
double_out (suc left) i bits = (bits / 2 ^ (i * 8) % 256) ∷ double_out left (suc i) bits

unfoldable pub wbuf_double : Wbuf → ℕ → Outcome Wbuf
unfolding double_out
wbuf_double b bits = wbuf_bytes b (double_out 8 0 bits)

-- The loop of `read_double` from byte `i` on, `left` rounds; `p` starts at that byte.
unfoldable pub double_in : ℕ → ℕ → Bytes → ℕ → ℕ
double_in zero i p bits = bits
double_in (suc left) i [] bits = bits
double_in (suc left) i (byte ∷ p) bits =
    double_in left (suc i) p (bit_or bits (u64 (byte * 2 ^ (i * 8))))

-- `n` bytes read at `*p`, which must lie before `end`, and what is behind them.
unfoldable pub load : ℕ → Bytes → Outcome (Bytes × Bytes)
load n p = if leb n (length p) then done (take n p, drop n p) else fault

unfoldable pub read_double : Bytes → Outcome (ℕ × Bytes)
unfolding double_in
read_double p =
    if ltb (length p) 8 then refused else (do (out, p) ← load 8 p; done (double_in 8 0 out 0, p))
