-- ===== src/Pack/Decode.antt =====
-- value/pack.c: `unpack_kv_block`, `unpack_one` and `value_unpack`.
-- A list is what lies from `*p` to `end`, and `end - *p` is its length.
pub mod Parts
pub mod Stable
pub mod Rebuild
pub mod Entries
pub mod Parents
pub mod Inverse
pub mod RoundTrip
pub mod Sound
pub mod Prefix
use php_parallax.Prelude.{
  ℕ, zero, suc, ◌+◌, ◌*◌, Bool, true, false, not, [], ◌∷◌, Option, none, some, if◌then◌else◌, ltb,
  ◌==◌, length, take, drop, Outcome, done, refused, stuck, ◌>>=◌,
}
use php_parallax.Prelude.Int.{of_u64}
use php_parallax.Value.{
  Bytes, Key, int_key, str_key, Value, null, bool, long, double, str, value_null, value_bool,
  value_long, value_double, value_str, value_arr, value_obj, value_err, value_arr_set_int,
  value_arr_set_str, value_obj_set,
}
use php_parallax.Pack.Varint.{varint_read}
use php_parallax.Pack.Buffer.{load, read_double}

-- A length, and then as many bytes, which must lie before `end`.
unfoldable pub read_sized : Bytes → Outcome (Bytes × Bytes)
read_sized p = do (len, p) ← varint_read p; if ltb (length p) len then refused else load len p

-- The flag and the key at the head of an entry.
unfoldable pub read_key : Bytes → Outcome (Key × Bytes)
read_key [] = refused
read_key (is_int_key ∷ p) =
    if is_int_key == 0
    then (do (skey, p) ← read_sized p; done (str_key skey, p))
    else (do (k, p) ← varint_read p; done (int_key (of_u64 k), p))

-- An entry of an object with an integer key passes NULL, of length 0, for its name.
unfoldable pub attach : Value → Bool → Key → Value → Outcome Value
attach parent true (int_key k) child = value_arr_set_int parent k child
attach parent true (str_key s) child = value_arr_set_str parent s child
attach parent false (int_key k) child = value_obj_set parent [] child
attach parent false (str_key s) child = value_obj_set parent s child

pub data ValTag : Type 0 where
  val_null val_bool val_long val_double val_str val_arr val_obj val_err : ValTag

-- `(val_tag)byte`; a byte from 8 on is no case of the switch.
unfoldable pub val_tag_of : ℕ → Option ValTag
val_tag_of b =
    if b == 0
    then some val_null
    else if b == 1
    then some val_bool
    else if b == 2
    then some val_long
    else if b == 3
    then some val_double
    else if b == 4
    then some val_str
    else if b == 5
    then some val_arr
    else if b == 6
    then some val_obj
    else if b == 7
    then some val_err
    else none

-- The cases of the switch. `entries` is the loop of `unpack_kv_block`.
unfoldable pub unpack_case :
    (ℕ → Bytes → Value → Bool → Outcome (Value × Bytes))
    → Option ValTag
    → Bytes
    → Outcome (Value × Bytes)
unpack_case entries none p = refused
unpack_case entries (some val_null) p = done (value_null, p)
unpack_case entries (some val_bool) [] = refused
unpack_case entries (some val_bool) (b ∷ p) = done (value_bool (not (b == 0)), p)
unpack_case entries (some val_long) p = do (i, p) ← varint_read p; done (value_long (of_u64 i), p)
unpack_case entries (some val_double) p = do (d, p) ← read_double p; done (value_double d, p)
unpack_case entries (some val_str) p = do (s, p) ← read_sized p; done (value_str s, p)
unpack_case entries (some val_arr) p = do (n, p) ← varint_read p; entries n p (value_arr 0) true
unpack_case entries (some val_obj) p = do
  (cls, p) ← read_sized p
  (n, p) ← varint_read p
  entries n p (value_obj cls 0) false
unpack_case entries (some val_err) p = do
  (cls, p) ← read_sized p
  (msg, p) ← read_sized p
  (code, p) ← varint_read p
  (tr, p) ← read_sized p
  done (value_err (some cls) (some msg) (of_u64 code) (some tr), p)

-- Each call and each round costs a unit of fuel. The number counts the rounds left.
unfoldable mutual
  pub unpack_one : ℕ → Bytes → Outcome (Value × Bytes)
  unpack_one zero p = stuck
  unpack_one (suc f) [] = refused
  unpack_one (suc f) (b ∷ p) = unpack_case (unpack_entries f) (val_tag_of b) p

  pub unpack_entries : ℕ → ℕ → Bytes → Value → Bool → Outcome (Value × Bytes)
  unpack_entries zero n p parent is_arr = stuck
  unpack_entries (suc f) zero p parent is_arr = done (parent, p)
  unpack_entries (suc f) (suc n) p parent is_arr = do
    (key, p) ← read_key p
    (child, p) ← unpack_one f p
    parent ← attach parent is_arr key child
    unpack_entries f n p parent is_arr

-- `p != end` after the value is an error.
unfoldable pub finish : Value × Bytes → Outcome Value
finish (v, []) = done v
finish (v, b ∷ p) = refused

unfoldable pub value_unpack : Bytes → Outcome Value
unfolding finish
value_unpack buf = unpack_one (2 * length buf + 1) buf >>= finish
