-- ===== src/Value/Build.antt =====
-- value/value.c: constructors, builders and lookup.
use php_parallax.Prelude.{
  ℕ, ◌*◌, Bool, true, false, ◌&&◌, [], ◌∷◌, Option, none, some, if◌then◌else◌, ◌==◌, ltb, Outcome,
  done, fault, ◌>>=◌,
}
use php_parallax.Prelude.Bits.{u64}
use php_parallax.Prelude.Int.{ℤ, negsuc, i64_max, ltz, succ}
use php_parallax.Value.Types.{
  Bytes, CStr, Key, int_key, str_key, Value, Items, null, bool, long, double, str, arr, obj, err,
  nil, item, count, snoc,
}

-- The bytes of a buffer before its first NUL, which is what `strlen` measures.
unfoldable pub until_nul : Bytes → Bytes
until_nul [] = []
until_nul (c ∷ cs) = if c == 0 then [] else c ∷ until_nul cs

unfoldable pub dup_cstr : CStr → CStr
dup_cstr none = none
dup_cstr (some src) = some (until_nul src)

abbrev pub value_null : Value
value_null = null

abbrev pub value_bool : Bool → Value
value_bool b = bool b

abbrev pub value_long : ℤ → Value
value_long i = long i

abbrev pub value_double : ℕ → Value
value_double d = double d

abbrev pub value_str : Bytes → Value
value_str p = str p

abbrev pub value_arr : ℕ → Value
value_arr initial_cap = arr nil initial_cap

abbrev pub value_obj : Bytes → ℕ → Value
value_obj cls initial_cap = obj cls nil initial_cap

unfoldable pub value_err : CStr → CStr → ℤ → CStr → Value
unfolding dup_cstr
value_err cls msg code trace = err (dup_cstr cls) (dup_cstr msg) code (dup_cstr trace)

-- The new capacity of `grow`, a size_t.
unfoldable pub grow : ℕ → ℕ
grow cap = if cap == 0 then 4 else u64 (cap * 2)

-- What every builder does: grow a full array, then write entry `n` and count it.
-- A write at or past the capacity is out of bounds.
unfoldable pub append_kv : Items → ℕ → Key → Value → Outcome (Items × ℕ)
append_kv items cap k child =
    let cap' = if count items == cap then grow cap else cap in
    if ltb (count items) cap' then done (snoc items k child, cap') else fault

-- The loop of `next_int_key`, on the entries that are left.
unfoldable pub max_int_key : ℤ → Items → ℤ
max_int_key max nil = max
max_int_key max (item (int_key k) v xs) = max_int_key (if ltz max k then k else max) xs
max_int_key max (item (str_key k) v xs) = max_int_key max xs

-- `max + 1`, which is undefined at INT64_MAX.
unfoldable pub next_int_key : Items → Outcome ℤ
next_int_key items =
    let max = max_int_key (negsuc 0) items in if ltz max i64_max then done (succ max) else fault

abbrev arr_of : Items × ℕ → Outcome Value
arr_of (items, cap) = done (arr items cap)

abbrev obj_of : Bytes → Items × ℕ → Outcome Value
obj_of cls (props, cap) = done (obj cls props cap)

unfoldable pub value_arr_push : Value → Value → Outcome Value
value_arr_push (arr items cap) child = do
  key ← next_int_key items
  r ← append_kv items cap (int_key key) child
  arr_of r
value_arr_push _ child = fault

unfoldable pub value_arr_set_int : Value → ℤ → Value → Outcome Value
value_arr_set_int (arr items cap) key child = do
  r ← append_kv items cap (int_key key) child
  arr_of r
value_arr_set_int _ key child = fault

unfoldable pub value_arr_set_str : Value → Bytes → Value → Outcome Value
value_arr_set_str (arr items cap) key child = do
  r ← append_kv items cap (str_key key) child
  arr_of r
value_arr_set_str _ key child = fault

unfoldable pub value_obj_set : Value → Bytes → Value → Outcome Value
value_obj_set (obj cls props cap) key child = do
  r ← append_kv props cap (str_key key) child
  obj_of cls r
value_obj_set _ key child = fault

-- Equal lengths, and `memcmp` over them.
unfoldable pub bytes_eq : Bytes → Bytes → Bool
bytes_eq [] [] = true
bytes_eq (a ∷ xs) (b ∷ ys) = (a == b) && bytes_eq xs ys
bytes_eq _ _ = false

unfoldable pub find_str : Items → Bytes → Option Value
find_str nil key = none
find_str (item (int_key k) v xs) key = find_str xs key
find_str (item (str_key k) v xs) key =
    let rest = find_str xs key in if bytes_eq k key then some v else rest

unfoldable pub value_arr_get_str : Value → Bytes → Option Value
unfolding find_str
value_arr_get_str (arr items cap) key = find_str items key
value_arr_get_str _ key = none
