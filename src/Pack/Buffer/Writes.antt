-- ===== src/Pack/Buffer/Writes.antt =====
-- Every write ends, stays within the capacity, and appends to what the buffer holds.
use php_parallax.Prelude.{
  ℕ, zero, suc, ◌+◌, ◌*◌, ◌%◌, ◌^◌, ◌≤◌, ◌<◌, arith, [], ◌∷◌, ◌++◌, ◌≡◌, refl, ap, ◌∙◌,
  append_assoc, append-nil, length, length-append, Outcome, ◌>>=◌, Returns, returns, Returns-bind,
  if◌then◌else◌, ltb, leb, ◌==◌, Bool-cases, inl, inr, true, false, sym, ltb→lt, leb→le, le→leb,
  Returns-map,
}
use php_parallax.Prelude.Bits.{u64}
use php_parallax.Value.{Bytes}
use php_parallax.Pack.Varint.Write.{groups, varint_write-groups, length-groups}
use php_parallax.Pack.Buffer.{
  Wbuf, double_until, wbuf_reserve, store, wbuf_u8, wbuf_bytes, wbuf_varint, double_out,
  wbuf_double,
}
use php_parallax.Pack.Buffer.Double.{length-double_out}
use native.Mathlib.Nat.{pow-suc}

abbrev pub InBounds : Wbuf → Type 0
InBounds b = length b.bytes ≤ b.cap

-- `n` more bytes keep the length, and the ten that a varint reserves, within half of size_t.
abbrev pub Room : Wbuf → ℕ → Type 0
Room b n = length b.bytes + n + 10 ≤ 2 ^ 63

pub record Wrote (b : Wbuf) (p : Bytes) (b' : Wbuf) : Type 0 where
  pub appended : b'.bytes ≡ b.bytes ++ p
  pub in_bounds : InBounds b'

abbrev pub Writes : Wbuf → Bytes → Outcome Wbuf → Type 0
Writes b p r = Returns (Wrote b p) r

length-Wrote :
    (b : Wbuf) (p : Bytes) (b' : Wbuf) → Wrote b p b' → length b'.bytes ≡ length b.bytes + length p
length-Wrote b p b' w = ap length w.appended ∙ length-append b.bytes p

pub Writes-bind :
    (b : Wbuf) (p q : Bytes) {r : Outcome Wbuf} {f : Wbuf → Outcome Wbuf}
    → Writes b p r
    → ((b' : Wbuf) → InBounds b' → length b'.bytes ≡ length b.bytes + length p → Writes b' q (f b'))
    → Writes b (p ++ q) (r >>= f)
Writes-bind b p q w k = Returns-bind w λ b' wp.
    Returns-map (k b' wp.in_bounds (length-Wrote b p b' wp)) λ c wq. record {
      appended = wq.appended ∙ ap (λ t. t ++ q) wp.appended ∙ append_assoc b.bytes p q;
      in_bounds = wq.in_bounds;
    }

-- Each round halves the distance, so `f` doublings that reach `need` are within `f + 1` rounds.
double_until-Returns :
    (f c need : ℕ)
    → need ≤ c * 2 ^ f
    → need ≤ 2 ^ 63
    → Returns (λ c'. need ≤ c') (double_until (suc f) c need)
unfolding double_until
double_until-Returns zero c need reach small =
    let enough : ltb c need ≡ false = ground arith in rw enough (returns (omega arith))
double_until-Returns (suc f) c need reach small = elim (Bool-cases (ltb c need)) [
  | inl short ↦
      let lt : c < need = ltb→lt c need short in
      let exact : u64 (c * 2) ≡ c * 2 = omega arith in
      rw (short, exact)
        (double_until-Returns f (c * 2) need (omega (arith, ap (λ (t : ℕ). c * t) (pow-suc 2 f)))
          small)
  | inr enough ↦ rw enough (returns (ground arith))
]

-- Where the length of the buffer and `extra` together are at most half of size_t, `wbuf_reserve`
-- returns, with a capacity of at least both together and the contents as they were.
pub wbuf_reserve-Returns :
    (b : Wbuf) (extra : ℕ)
    → length b.bytes + extra ≤ 2 ^ 63
    → Returns
        (λ b'. (b'.bytes ≡ b.bytes) × (length b.bytes + extra ≤ b'.cap))
        (wbuf_reserve b extra)
unfolding wbuf_reserve
wbuf_reserve-Returns b extra small =
    let exact : u64 (length b.bytes + extra) ≡ length b.bytes + extra = omega arith in
    rw exact (elim (Bool-cases (leb (length b.bytes + extra) b.cap)) [
      | inl enough ↦ rw enough (returns (refl, leb→le _ b.cap enough))
      | inr short ↦
          let need = length b.bytes + extra in
          let start = (if b.cap == 0 then 64 else u64 (b.cap * 2)) in
          let some_room : 1 ≤ start = ground arith in
          rw short (
            Returns-bind (double_until-Returns 63 start need (omega arith) small)
              λ c h. returns (refl, h))
    ])

store-Writes :
    (b b' : Wbuf) (p : Bytes)
    → b'.bytes ≡ b.bytes
    → length b.bytes + length p ≤ b'.cap
    → Writes b p (store b' p)
unfolding store
store-Writes b b' p same enough =
    let fits : leb (length b'.bytes + length p) b'.cap ≡ true =
      le→leb _ b'.cap (omega (arith, ap length same)) in
    rw fits (
      returns record {
        appended = ap (λ t. t ++ p) same;
        in_bounds = omega (arith, length-append b'.bytes p, ap length same);
      })

pub wbuf_u8-Writes : (b : Wbuf) (v : ℕ) → v < 256 → Room b 1 → Writes b (v ∷ []) (wbuf_u8 b v)
unfolding wbuf_u8
wbuf_u8-Writes b v h room =
    let byte : v % 256 ≡ v = omega arith in
    rw byte (
      Returns-bind (wbuf_reserve-Returns b 1 (omega arith))
        λ b' h'. store-Writes b b' (v ∷ []) h'.0 (omega arith))

pub wbuf_bytes-Writes : (b : Wbuf) (p : Bytes) → Room b (length p) → Writes b p (wbuf_bytes b p)
unfolding wbuf_bytes
wbuf_bytes-Writes b [] room = Returns-bind (wbuf_reserve-Returns b 0 (omega arith)) λ b' h'.
    returns record {
      appended = h'.0 ∙ sym (append-nil b.bytes);
      in_bounds = omega (arith, ap length h'.0);
    }
wbuf_bytes-Writes b (c ∷ p) room =
    let some_bytes : ltb 0 (suc (length p)) ≡ true = ground arith in
    Returns-bind (wbuf_reserve-Returns b (suc (length p)) (omega arith))
      λ b' h'. rw some_bytes (store-Writes b b' (c ∷ p) h'.0 h'.1)

-- The ten bytes that `wbuf_varint` reserves are enough for every uint64_t.
pub wbuf_varint-Writes :
    (b : Wbuf) (v : ℕ) → v < 2 ^ 64 → Room b 0 → Writes b (groups 9 v) (wbuf_varint b v)
unfolding wbuf_varint
wbuf_varint-Writes b v h room = rw (varint_write-groups v h) (
    Returns-bind (wbuf_reserve-Returns b 10 (omega arith))
      λ b' h'. store-Writes b b' (groups 9 v) h'.0 (omega (arith, length-groups 9 v)))

pub wbuf_double-Writes :
    (b : Wbuf) (bits : ℕ) → Room b 8 → Writes b (double_out 8 0 bits) (wbuf_double b bits)
unfolding wbuf_double
wbuf_double-Writes b bits room =
    wbuf_bytes-Writes b (double_out 8 0 bits) (omega (arith, length-double_out 8 0 bits))
