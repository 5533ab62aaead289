-- ===== src/Bridge/Capture/Arrays.antt =====
-- Arrays under capture: in their final capacity from the start.
use php_parallax.Prelude.{ℕ, suc, ◌+◌, ◌≤◌, ◌≡◌, arith, Bool-cases, inl, inr}
use php_parallax.Value.{
  Key, int_key, str_key, Value, absent, null, bool, long, double, str, arr, obj, err, nil, count,
  value_arr_set_int, value_arr_set_str, IsKey, IsValue, IsItems, IsItems-snoc,
}
use php_parallax.Value.Capacity.{append_kv-fits, count-snoc}
use php_parallax.Bridge.Types.{
  Zval, Table, end, entry, num_elements, Attempt, Yields, yields, throws, Yields-bind,
}
use php_parallax.Bridge.Capture.{
  is_reference, set_entry, capture_element, capture_elements, array_to_value,
}
use php_parallax.Bridge.Capture.Wellformed.{IsZval, IsTable, depth, depth_items, depth_items-snoc}

-- A value that may stand below `n` levels.
abbrev pub Captured : ℕ → Value → Type 0
Captured n v = IsValue v × (depth v ≤ n)

-- An array under construction in its final capacity, with `m` entries still to come.
abbrev pub IsFilling : ℕ → ℕ → Value → Type 0
IsFilling n m (arr xs cap) = IsItems xs × (count xs + m ≡ cap) × (depth_items xs ≤ n)
IsFilling n m _ = ⊥

module _ (n : ℕ) (convert : Zval → Attempt Value)
    (converts : (z : Zval) → IsZval z → Yields (Captured n) (convert z)) where
  set_entry-Yields :
      (into : Value) (m : ℕ) (k : Key) (v : Value)
      → IsFilling n (suc m) into
      → IsKey k
      → Captured n v
      → Yields (IsFilling n m) (set_entry into k v)
  unfolding set_entry value_arr_set_int value_arr_set_str
  set_entry-Yields (arr xs cap) m (int_key i) v (hx, fill, low) hk (hv, deep) =
      rw (append_kv-fits xs cap (int_key i) v (omega arith)) (
        yields (
          IsItems-snoc xs (int_key i) v hx hk hv,
          omega (arith, count-snoc xs (int_key i) v),
          depth_items-snoc xs (int_key i) v n low deep,
        ))
  set_entry-Yields (arr xs cap) m (str_key s) v (hx, fill, low) hk (hv, deep) =
      rw (append_kv-fits xs cap (str_key s) v (omega arith)) (
        yields (
          IsItems-snoc xs (str_key s) v hx hk hv,
          omega (arith, count-snoc xs (str_key s) v),
          depth_items-snoc xs (str_key s) v n low deep,
        ))
  set_entry-Yields _ m k v h hk hv = absurd h

  capture_elements-Yields :
      (ht : Table) (into : Value)
      → IsTable ht
      → IsFilling n (num_elements ht) into
      → Yields (IsFilling n 0) (capture_elements convert ht into)
  unfolding capture_elements capture_element
  capture_elements-Yields end into h fill = yields fill
  capture_elements-Yields (entry k z ht) into h fill = elim (Bool-cases (is_reference z)) [
    | inl by_ref ↦ rw by_ref throws
    | inr plain ↦ rw plain (
        Yields-bind
          (Yields-bind (converts z h.1)
            λ v hv. set_entry-Yields into (num_elements ht) k v fill h.0 hv)
          λ into' fill'. capture_elements-Yields ht into' h.2 fill')
  ]

  pub array_to_value-Yields :
      (ht : Table) → IsTable ht → Yields (IsFilling n 0) (array_to_value convert ht)
  unfolding array_to_value
  array_to_value-Yields ht h =
      capture_elements-Yields ht (arr nil (num_elements ht)) h (tt, omega arith, omega arith)

pub filled : (n : ℕ) (v : Value) → IsFilling n 0 v → Captured (suc n) v
filled n (arr xs cap) (hx, full, low) = ((hx, omega (arith, full)), omega arith)
filled n absent h = absurd h
filled n null h = absurd h
filled n (bool b) h = absurd h
filled n (long i) h = absurd h
filled n (double d) h = absurd h
filled n (str s) h = absurd h
filled n (obj cls xs cap) h = absurd h
filled n (err cls msg code trace) h = absurd h
