-- ===== src/Value/Types.antt =====
-- value/value.h: `value_t` and `kv_t`. A value owns everything below it, so a `value_t *` is a tree.
use php_parallax.Prelude.{ℕ, suc, Bool, List, Option}
use php_parallax.Prelude.Int.{ℤ}

-- The bytes of a `char *` with its length; a NULL pointer of length 0 is `[]`.
abbrev pub Bytes : Type 0
Bytes = List ℕ

-- A NUL-terminated `char *` by its bytes before the NUL, or NULL.
abbrev pub CStr : Type 0
CStr = Option Bytes

-- The key half of `kv_t`: `is_int_key` with `ikey`, or `skey` with `skey_len`.
pub data Key : Type 0 where
  int_key : ℤ → Key
  str_key : Bytes → Key

-- `value_t *`: NULL is `absent`, the others are `val_tag`. A `double` is its 64 bits.
-- The number after the items of `arr` and `obj` is `cap`; `n` is the number of items.
mutual
  pub data Value : Type 0 where
    absent : Value
    null : Value
    bool : Bool → Value
    long : ℤ → Value
    double : ℕ → Value
    str : Bytes → Value
    arr : Items → ℕ → Value
    obj : Bytes → Items → ℕ → Value
    err : CStr → CStr → ℤ → CStr → Value

  -- The `n` entries of a `kv_t` array, first to last.
  pub data Items : Type 0 where
    nil : Items
    item : Key → Value → Items → Items

abbrev pub count : Items → ℕ
count nil = 0
count (item k v xs) = suc (count xs)

-- One more entry at the end.
abbrev pub snoc : Items → Key → Value → Items
snoc nil k v = item k v nil
snoc (item j w xs) k v = item j w (snoc xs k v)

-- Entries behind entries.
abbrev pub join : Items → Items → Items
join nil ys = ys
join (item k v xs) ys = item k v (join xs ys)
