-- ===== src/Pack/Decode/Parents.antt =====
-- The parent that the loop of `unpack_kv_block` fills, on any bytes.
use php_parallax.Prelude.{
  ℕ, ◌+◌, ◌*◌, ◌^◌, ◌≤◌, ◌<◌, arith, Bool, true, false, [], All, Ensures, holds,
}
use php_parallax.Value.{
  IsItems-snoc, IsProperties-snoc, Bytes, Key, int_key, str_key, Value, Items, arr, obj, count,
  snoc, value_arr_set_int, value_arr_set_str, value_obj_set, IsByte, IsKey, IsValue, IsItems,
  IsProperties,
}
use php_parallax.Value.Capacity.{room, IsRoomy, room-lt, append_kv-done, count-snoc}
use php_parallax.Pack.Decode.{attach}

-- A parent under construction, with `n` bytes of input still to come.
abbrev pub IsParent : Bool → Value → ℕ → Type 0
IsParent true (arr xs cap) n = IsItems xs × IsRoomy (count xs) cap × (3 * count xs + n < 2 ^ 63)
IsParent false (obj cls xs cap) n =
    (All IsByte cls × IsProperties xs) × IsRoomy (count xs) cap × (3 * count xs + n < 2 ^ 63)
IsParent _ _ n = ⊥

grown :
    (xs : Items) (k : Key) (v : Value) (cap n : ℕ)
    → IsRoomy (count xs) cap
    → 3 * count xs + (n + 3) < 2 ^ 63
    → IsRoomy (count (snoc xs k v)) (room (count xs) cap) × (3 * count (snoc xs k v) + n < 2 ^ 63)
grown xs k v cap n h small =
    rw (count-snoc xs k v) ((room-lt (count xs) cap h (omega arith)).1, omega arith)

set_int-Returns :
    (xs : Items) (cap n : ℕ) (k : Key) (v : Value)
    → IsKey k
    → IsValue v
    → IsParent true (arr xs cap) (n + 3)
    → IsParent true (arr (snoc xs k v) (room (count xs) cap)) n
set_int-Returns xs cap n k v hk hv (hx, hr, small) =
    let (r, s) = grown xs k v cap n hr small in (IsItems-snoc xs k v hx hk hv, r, s)

obj_set-Returns :
    (cls : Bytes) (xs : Items) (cap n : ℕ) (s : Bytes) (v : Value)
    → All IsByte s
    → IsValue v
    → IsParent false (obj cls xs cap) (n + 3)
    → IsParent false (obj cls (snoc xs (str_key s) v) (room (count xs) cap)) n
obj_set-Returns cls xs cap n s v hs hv (hx, hr, small) =
    let (r, t) = grown xs (str_key s) v cap n hr small in
    ((hx.0, IsProperties-snoc xs s v hx.1 hs hv), r, t)

pub attach-Ensures :
    (parent : Value) (is_arr : Bool) (n : ℕ) (k : Key) (v : Value)
    → IsKey k
    → IsValue v
    → IsParent is_arr parent (n + 3)
    → Ensures (λ w. IsParent is_arr w n) (attach parent is_arr k v)
unfolding attach value_arr_set_int value_arr_set_str value_obj_set
attach-Ensures (arr xs cap) true n (int_key i) v hk hv h =
    rw (append_kv-done xs cap (int_key i) v h.1 (omega arith))
      (holds (set_int-Returns xs cap n (int_key i) v hk hv h))
attach-Ensures (arr xs cap) true n (str_key s) v hk hv h =
    rw (append_kv-done xs cap (str_key s) v h.1 (omega arith))
      (holds (set_int-Returns xs cap n (str_key s) v hk hv h))
attach-Ensures (obj cls xs cap) false n (int_key i) v hk hv h =
    rw (append_kv-done xs cap (str_key []) v h.1 (omega arith))
      (holds (obj_set-Returns cls xs cap n [] v tt hv h))
attach-Ensures (obj cls xs cap) false n (str_key s) v hk hv h =
    rw (append_kv-done xs cap (str_key s) v h.1 (omega arith))
      (holds (obj_set-Returns cls xs cap n s v hk hv h))
attach-Ensures _ true n k v hk hv h = absurd h
attach-Ensures _ false n k v hk hv h = absurd h

pub IsParent-IsValue : (is_arr : Bool) (w : Value) (n : ℕ) → IsParent is_arr w n → IsValue w
IsParent-IsValue true (arr xs cap) n h = (h.0, h.1.0)
IsParent-IsValue false (obj cls xs cap) n h = (h.0.0, h.0.1, h.1.0)
IsParent-IsValue true _ n h = absurd h
IsParent-IsValue false _ n h = absurd h

pub IsParent-lt : (is_arr : Bool) (w : Value) (n : ℕ) → IsParent is_arr w n → n < 2 ^ 63
IsParent-lt true (arr xs cap) n h = omega arith
IsParent-lt false (obj cls xs cap) n h = omega arith
IsParent-lt true _ n h = absurd h
IsParent-lt false _ n h = absurd h

pub IsParent-le :
    (is_arr : Bool) (w : Value) (n m : ℕ) → m ≤ n → IsParent is_arr w n → IsParent is_arr w m
IsParent-le true (arr xs cap) n m le h = (h.0, h.1, omega arith)
IsParent-le false (obj cls xs cap) n m le h = (h.0, h.1, omega arith)
IsParent-le true _ n m le h = absurd h
IsParent-le false _ n m le h = absurd h
