-- ===== src/Bridge/Capture/Wellformed.antt =====
-- What PHP guarantees of a zval, and how deep a value is nested.
use php_parallax.Prelude.{
  ℕ, suc, ◌+◌, ◌*◌, ◌^◌, ◌≤◌, ◌<◌, arith, max, Option, none, some, length, All,
}
use php_parallax.Prelude.Int.{IsI64}
use php_parallax.Value.{Key, Value, Items, arr, obj, nil, item, snoc, IsByte, IsKey}
use php_parallax.Bridge.Types.{Zval, Table, end, entry, num_elements, Object, Heap}

-- Integers, doubles and bytes in range, and no table of a third of 2 ^ 63 entries.
abbrev mutual
  pub IsZval : Zval → Type 0
  IsZval (Zval.long i) = IsI64 i
  IsZval (Zval.double d) = d < 2 ^ 64
  IsZval (Zval.string s) = All IsByte s
  IsZval (Zval.array ht) = IsTable ht × (3 * num_elements ht < 2 ^ 63)
  IsZval _ = Unit {0}

  pub IsTable : Table → Type 0
  IsTable end = Unit {0}
  IsTable (entry k z ht) = IsKey k × IsZval z × IsTable ht

abbrev pub table_of : Option Table → Table
table_of none = end
table_of (some ht) = ht

pub record IsObject (o : Object) : Type 0 where
  pub class_name : All IsByte o.ce.name
  pub names : All (λ p. All IsByte p.name) o.ce.properties
  pub slots : (i : ℕ) → IsZval (o.slots i)
  pub dynamic : IsTable (table_of o.dynamic)
  pub small : 3 * (length o.ce.properties + num_elements (table_of o.dynamic)) < 2 ^ 63

pub record IsHeap (heap : Heap) : Type 0 where
  pub objects : (id : ℕ) → IsObject (heap.objects id)
  pub cells : (c : ℕ) → IsZval (heap.cells c)

-- The levels of a value: 1 for a scalar, one more for each array or object around it.
abbrev mutual
  pub depth : Value → ℕ
  depth (arr xs cap) = suc (depth_items xs)
  depth (obj cls xs cap) = suc (depth_items xs)
  depth _ = 1

  pub depth_items : Items → ℕ
  depth_items nil = 0
  depth_items (item k v xs) = max (depth v) (depth_items xs)

pub depth_items-snoc :
    (xs : Items) (k : Key) (v : Value) (n : ℕ)
    → depth_items xs ≤ n
    → depth v ≤ n
    → depth_items (snoc xs k v) ≤ n
depth_items-snoc nil k v n h hv = omega arith
depth_items-snoc (item j w xs) k v n h hv =
    omega (arith, depth_items-snoc xs k v n (omega arith) hv)
