-- ===== src/Clone/Laws.antt =====
-- A clone says the same as its source, is well formed, and has no spare capacity.
use php_parallax.Prelude.{arith, ◌≡◌, refl, ap, none, some, suc}
use php_parallax.Prelude.Int.{ℤ}
use php_parallax.Value.{
  Value, Items, CStr, absent, null, bool, long, double, str, arr, obj, err, nil, item, count,
  dup_cstr, value_err, IsText, IsValue, IsItems, IsProperties, IsProperties→IsItems,
}
use php_parallax.Value.Snapshot
use php_parallax.Value.Snapshot.{snapshot, entries, until_nul-IsText}
use php_parallax.Clone.{value_clone, clone_kv_block}

dup_cstr-IsText : (s : CStr) → IsText s → dup_cstr s ≡ s
unfolding dup_cstr
dup_cstr-IsText none h = refl
dup_cstr-IsText (some s) h = ap some (until_nul-IsText s h)

value_err-IsText :
    (cls msg : CStr) (code : ℤ) (trace : CStr)
    → IsText cls
    → IsText msg
    → IsText trace
    → value_err cls msg code trace ≡ err cls msg code trace
unfolding value_err
value_err-IsText cls msg code trace a b c =
    rw (dup_cstr-IsText cls a, dup_cstr-IsText msg b, dup_cstr-IsText trace c)

pub count-clone_kv_block : (xs : Items) → count (clone_kv_block xs) ≡ count xs
unfolding value_clone
count-clone_kv_block nil = refl
count-clone_kv_block (item k v xs) = ap suc (count-clone_kv_block xs)

mutual
  unfolding value_clone snapshot

  clone_same : (v : Value) → IsValue v → snapshot (value_clone v) ≡ snapshot v
  clone_same absent h = refl
  clone_same null h = refl
  clone_same (bool b) h = refl
  clone_same (long i) h = refl
  clone_same (double d) h = refl
  clone_same (str p) h = refl
  clone_same (arr xs cap) h = ap Snapshot.arr (clone_items_same xs h.0)
  clone_same (obj cls xs cap) h =
      ap (Snapshot.obj cls) (clone_items_same xs (IsProperties→IsItems xs h.1))
  clone_same (err cls msg code trace) h =
      ap snapshot (value_err-IsText cls msg code trace h.0 h.1 h.3)

  clone_items_same : (xs : Items) → IsItems xs → entries (clone_kv_block xs) ≡ entries xs
  clone_items_same nil h = refl
  clone_items_same (item k v xs) h = rw (clone_same v h.1, clone_items_same xs h.2)

-- The clone of a well-formed value has the same snapshot.
pub snapshot-value_clone : (v : Value) → IsValue v → snapshot (value_clone v) ≡ snapshot v
snapshot-value_clone v h = clone_same v h

mutual
  unfolding value_clone

  clone_valid : (v : Value) → IsValue v → IsValue (value_clone v)
  clone_valid absent h = tt
  clone_valid null h = tt
  clone_valid (bool b) h = tt
  clone_valid (long i) h = h
  clone_valid (double d) h = h
  clone_valid (str p) h = h
  clone_valid (arr xs cap) h = (clone_items_valid xs h.0, omega (arith, count-clone_kv_block xs))
  clone_valid (obj cls xs cap) h =
      (h.0, clone-IsProperties_valid xs h.1, omega (arith, count-clone_kv_block xs))
  clone_valid (err cls msg code trace) h = rw (value_err-IsText cls msg code trace h.0 h.1 h.3) h

  clone_items_valid : (xs : Items) → IsItems xs → IsItems (clone_kv_block xs)
  clone_items_valid nil h = tt
  clone_items_valid (item k v xs) h = (h.0, clone_valid v h.1, clone_items_valid xs h.2)

  clone-IsProperties_valid : (xs : Items) → IsProperties xs → IsProperties (clone_kv_block xs)
  clone-IsProperties_valid nil h = tt
  clone-IsProperties_valid (item k v xs) h =
      (h.0, clone_valid v h.1, clone-IsProperties_valid xs h.2)

-- The clone of a well-formed value is well formed.
pub value_clone-IsValue : (v : Value) → IsValue v → IsValue (value_clone v)
value_clone-IsValue v h = clone_valid v h

mutual
  unfolding value_clone

  clone_again : (v : Value) → IsValue v → value_clone (value_clone v) ≡ value_clone v
  clone_again absent h = refl
  clone_again null h = refl
  clone_again (bool b) h = refl
  clone_again (long i) h = refl
  clone_again (double d) h = refl
  clone_again (str p) h = refl
  clone_again (arr xs cap) h = rw (clone_items_again xs h.0, count-clone_kv_block xs)
  clone_again (obj cls xs cap) h =
      rw (clone_items_again xs (IsProperties→IsItems xs h.1), count-clone_kv_block xs)
  clone_again (err cls msg code trace) h =
      ap value_clone (value_err-IsText cls msg code trace h.0 h.1 h.3)

  clone_items_again :
      (xs : Items) → IsItems xs → clone_kv_block (clone_kv_block xs) ≡ clone_kv_block xs
  clone_items_again nil h = refl
  clone_items_again (item k v xs) h = rw (clone_again v h.1, clone_items_again xs h.2)

-- The clone of a clone of a well-formed value is the clone itself, capacities included.
pub value_clone-value_clone : (v : Value) → IsValue v → value_clone (value_clone v) ≡ value_clone v
value_clone-value_clone v h = clone_again v h
