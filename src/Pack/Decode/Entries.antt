-- ===== src/Pack/Decode/Entries.antt =====
-- The parent that the loop of `unpack_kv_block` fills, on packed entries.
use php_parallax.Prelude.{ℕ, ◌*◌, ◌^◌, ◌<◌, Bool, true, false, ◌≡◌, done}
use php_parallax.Value.{
  Bytes, Key, int_key, str_key, Value, Items, arr, obj, nil, item, count, snoc, value_arr_set_int,
  value_arr_set_str, value_obj_set, IsKey, IsStrKey, IsValue, IsItems, IsProperties,
}
use php_parallax.Value.Capacity.{room, IsRoomy, append_kv-done}
use php_parallax.Pack.Decode.{attach}

-- `parent` of `unpack_kv_block`, by the flag `is_arr`.
abbrev pub parent_of : Bytes → Bool → Items → ℕ → Value
parent_of cls true xs cap = arr xs cap
parent_of cls false xs cap = obj cls xs cap

abbrev pub IsEntryKey : Bool → Key → Type 0
IsEntryKey true k = IsKey k
IsEntryKey false k = IsStrKey k

abbrev pub IsEntries : Bool → Items → Type 0
IsEntries is_arr nil = Unit {0}
IsEntries is_arr (item k v xs) = IsEntryKey is_arr k × IsValue v × IsEntries is_arr xs

pub IsItems→IsEntries : (xs : Items) → IsItems xs → IsEntries true xs
IsItems→IsEntries nil h = tt
IsItems→IsEntries (item k v xs) h = (h.0, h.1, IsItems→IsEntries xs h.2)

pub IsProperties→IsEntries : (xs : Items) → IsProperties xs → IsEntries false xs
IsProperties→IsEntries nil h = tt
IsProperties→IsEntries (item k v xs) h = (h.0, h.1, IsProperties→IsEntries xs h.2)

pub IsEntryKey-IsKey : (is_arr : Bool) (k : Key) → IsEntryKey is_arr k → IsKey k
IsEntryKey-IsKey true k h = h
IsEntryKey-IsKey false (int_key i) h = absurd h
IsEntryKey-IsKey false (str_key s) h = h

pub attach-done :
    (cls : Bytes) (is_arr : Bool) (acc : Items) (cap : ℕ) (k : Key) (v : Value)
    → IsEntryKey is_arr k
    → IsRoomy (count acc) cap
    → 3 * count acc < 2 ^ 63
    → attach (parent_of cls is_arr acc cap) is_arr k v
      ≡ done (parent_of cls is_arr (snoc acc k v) (room (count acc) cap))
unfolding attach value_arr_set_int value_arr_set_str value_obj_set
attach-done cls true acc cap (int_key i) v h r small =
    rw (append_kv-done acc cap (int_key i) v r small)
attach-done cls true acc cap (str_key s) v h r small =
    rw (append_kv-done acc cap (str_key s) v r small)
attach-done cls false acc cap (int_key i) v h r small = absurd h
attach-done cls false acc cap (str_key s) v h r small =
    rw (append_kv-done acc cap (str_key s) v r small)
