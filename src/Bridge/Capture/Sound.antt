-- ===== src/Bridge/Capture/Sound.antt =====
-- `px_zval_to_value` on any zval: it throws, or gives a well-formed value of at most 257 levels.
use php_parallax.Prelude.{
  ℕ, zero, suc, ◌+◌, ◌*◌, ◌^◌, ◌≤◌, ◌<◌, arith, List, [], ◌∷◌, Option, none, some, ◌||◌, length,
  All, Bool-cases, inl, inr,
}
use php_parallax.Value.{
  Bytes, Key, int_key, str_key, Value, absent, null, bool, long, double, str, arr, obj, err, nil,
  count, value_obj_set, IsByte, IsKey, IsValue, IsProperties, IsProperties-snoc,
}
use php_parallax.Value.Capacity.{IsRoomy, room-lt, append_kv-done, count-snoc}
use php_parallax.Bridge.Types.{
  Zval, Table, end, entry, num_elements, Property, Object, Heap, Attempt, lift, Yields, yields,
  throws, Yields-bind, Yields-weaken,
}
use php_parallax.Bridge.Capture.{
  is_undef, deref, capture_slot, capture_declared, declared_pass, already, capture_dynamic,
  dynamic_pass, dynamic_properties, object_to_value, zval_to_value_inner, px_zval_to_value,
}
use php_parallax.Bridge.Capture.Wellformed.{
  IsZval, IsTable, table_of, IsObject, IsHeap, depth, depth_items, depth_items-snoc,
}
use php_parallax.Bridge.Capture.Arrays.{Captured, filled, array_to_value-Yields}

-- An object under construction, with at most `m` properties still to come.
abbrev IsGrowing : ℕ → ℕ → Value → Type 0
IsGrowing n m (obj cls xs cap) =
    (All IsByte cls × IsProperties xs)
    × IsRoomy (count xs) cap
    × (3 * (count xs + m) < 2 ^ 63)
    × (depth_items xs ≤ n)
IsGrowing n m _ = ⊥

module _ (n : ℕ) (convert : Zval → Attempt Value)
    (converts : (z : Zval) → IsZval z → Yields (Captured n) (convert z)) (heap : Heap)
    (hh : IsHeap heap) where
  deref-IsZval : (z : Zval) → IsZval z → IsZval (deref heap z)
  deref-IsZval (Zval.reference c) h = hh.cells c
  deref-IsZval Zval.undef h = h
  deref-IsZval Zval.null h = h
  deref-IsZval Zval.resource h = h
  deref-IsZval (Zval.bool b) h = h
  deref-IsZval (Zval.long i) h = h
  deref-IsZval (Zval.double d) h = h
  deref-IsZval (Zval.string s) h = h
  deref-IsZval (Zval.array ht) h = h
  deref-IsZval (Zval.object id) h = h
  deref-IsZval (Zval.other t) h = h

  obj_set-Yields :
      (obj_v : Value) (m : ℕ) (name : Bytes) (v : Value)
      → IsGrowing n (suc m) obj_v
      → All IsByte name
      → Captured n v
      → Yields (IsGrowing n m) (lift (value_obj_set obj_v name v))
  unfolding value_obj_set
  obj_set-Yields (obj cls xs cap) m name v ((hc, hx), roomy, small, low) hn (hv, deep) =
      rw (append_kv-done xs cap (str_key name) v roomy (omega arith)) (
        yields (
          (hc, IsProperties-snoc xs name v hx hn hv),
          rw (count-snoc xs (str_key name) v) (room-lt (count xs) cap roomy (omega arith)).1,
          omega (arith, count-snoc xs (str_key name) v),
          depth_items-snoc xs (str_key name) v n low deep,
        ))
  obj_set-Yields _ m name v h hn hv = absurd h

  fewer : (obj_v : Value) (m l : ℕ) → l ≤ m → IsGrowing n m obj_v → IsGrowing n l obj_v
  fewer (obj cls xs cap) m l le (h, roomy, small, low) = (h, roomy, omega arith, low)
  fewer _ m l le h = absurd h

  capture_slot-Yields :
      (name : Bytes) (slot : Zval) (obj_v : Value) (m : ℕ)
      → All IsByte name
      → IsZval slot
      → IsGrowing n (suc m) obj_v
      → Yields (IsGrowing n m) (capture_slot convert heap name slot obj_v)
  unfolding capture_slot
  capture_slot-Yields name slot obj_v m hn hz h =
      Yields-bind (converts (deref heap slot) (deref-IsZval slot hz))
        λ v hv. obj_set-Yields obj_v m name v h hn hv

  declared_pass-Yields :
      (slots : ℕ → Zval) (infos : List Property) (obj_v : Value) (m : ℕ)
      → ((i : ℕ) → IsZval (slots i))
      → All (λ p. All IsByte p.name) infos
      → IsGrowing n (length infos + m) obj_v
      → Yields (IsGrowing n m) (declared_pass convert heap slots infos obj_v)
  unfolding declared_pass capture_declared
  declared_pass-Yields slots [] obj_v m hs hn h =
      yields (fewer obj_v (length {A = Property} [] + m) m (omega arith) h)
  declared_pass-Yields slots (p ∷ infos) obj_v m hs hn h =
      elim (Bool-cases (p.is_static || is_undef (slots p.offset))) [
        | inl skip ↦ rw skip (
            declared_pass-Yields slots infos obj_v m hs hn.1
              (fewer obj_v (suc (length infos) + m) (length infos + m) (omega arith) h))
        | inr take ↦ rw take (
            Yields-bind
              (capture_slot-Yields p.name (slots p.offset) obj_v (length infos + m) hn.0
                (hs p.offset)
                (fewer obj_v (suc (length infos) + m) (suc (length infos + m)) (omega arith) h))
              λ obj_v' h'. declared_pass-Yields slots infos obj_v' m hs hn.1 h')
      ]

  capture_dynamic-Yields :
      (k : Key) (slot : Zval) (obj_v : Value) (m : ℕ)
      → IsKey k
      → IsZval slot
      → IsGrowing n (suc m) obj_v
      → Yields (IsGrowing n m) (capture_dynamic convert heap k slot obj_v)
  unfolding capture_dynamic
  capture_dynamic-Yields (int_key i) slot obj_v m hk hz h =
      yields (fewer obj_v (suc m) m (omega arith) h)
  capture_dynamic-Yields (str_key s) slot obj_v m hk hz h =
      elim (Bool-cases (is_undef slot || already obj_v s)) [
        | inl skip ↦ rw skip (yields (fewer obj_v (suc m) m (omega arith) h))
        | inr take ↦ rw take (capture_slot-Yields s slot obj_v m hk hz h)
      ]

  dynamic_pass-Yields :
      (dyn : Table) (obj_v : Value)
      → IsTable dyn
      → IsGrowing n (num_elements dyn) obj_v
      → Yields (IsGrowing n 0) (dynamic_pass convert heap dyn obj_v)
  unfolding dynamic_pass
  dynamic_pass-Yields end obj_v h g = yields g
  dynamic_pass-Yields (entry k slot dyn) obj_v h g =
      Yields-bind (capture_dynamic-Yields k slot obj_v (num_elements dyn) h.0 h.1 g)
        λ obj_v' g'. dynamic_pass-Yields dyn obj_v' h.2 g'

  dynamic_properties-Yields :
      (dyn : Option Table) (obj_v : Value)
      → IsTable (table_of dyn)
      → IsGrowing n (num_elements (table_of dyn)) obj_v
      → Yields (IsGrowing n 0) (dynamic_properties convert heap dyn obj_v)
  unfolding dynamic_properties
  dynamic_properties-Yields none obj_v h g = yields g
  dynamic_properties-Yields (some dyn) obj_v h g = dynamic_pass-Yields dyn obj_v h g

  object_to_value-Yields :
      (o : Object) → IsObject o → Yields (IsGrowing n 0) (object_to_value convert heap o)
  unfolding object_to_value
  object_to_value-Yields o h = elim (Bool-cases o.ce.is_closure) [
    | inl closure ↦ rw closure throws
    | inr plain ↦ rw plain (elim (Bool-cases o.ce.native) [
      | inl native ↦ rw native throws
      | inr portable ↦ rw portable (
          Yields-bind
            (declared_pass-Yields o.slots o.ce.properties (obj o.ce.name nil 0)
              (num_elements (table_of o.dynamic)) h.slots h.names
              ((h.class_name, tt), omega arith, omega (arith, h.small), omega arith))
            λ obj_v g. dynamic_properties-Yields o.dynamic obj_v h.dynamic g)
    ])
  ]

grown : (n : ℕ) (v : Value) → IsGrowing n 0 v → Captured (suc n) v
grown n (obj cls xs cap) ((hc, hx), roomy, small, low) = ((hc, hx, roomy.0), omega arith)
grown n absent h = absurd h
grown n null h = absurd h
grown n (bool b) h = absurd h
grown n (long i) h = absurd h
grown n (double d) h = absurd h
grown n (str s) h = absurd h
grown n (arr xs cap) h = absurd h
grown n (err cls msg code trace) h = absurd h

inner-Yields :
    (heap : Heap)
    → IsHeap heap
    → (left : ℕ) (z : Zval) → IsZval z
    → Yields (Captured left) (zval_to_value_inner heap left z)
unfolding zval_to_value_inner
inner-Yields heap hh zero z h = throws
inner-Yields heap hh (suc left) Zval.undef h = throws
inner-Yields heap hh (suc left) Zval.null h = yields (tt, omega arith)
inner-Yields heap hh (suc left) Zval.resource h = throws
inner-Yields heap hh (suc left) (Zval.bool b) h = yields (tt, omega arith)
inner-Yields heap hh (suc left) (Zval.long i) h = yields (h, omega arith)
inner-Yields heap hh (suc left) (Zval.double d) h = yields (h, omega arith)
inner-Yields heap hh (suc left) (Zval.string s) h = yields (h, omega arith)
inner-Yields heap hh (suc left) (Zval.array ht) h =
    Yields-weaken (filled left) (
      array_to_value-Yields left (zval_to_value_inner heap left) (inner-Yields heap hh left) ht h.0)
inner-Yields heap hh (suc left) (Zval.object id) h = Yields-weaken (grown left) (
    object_to_value-Yields left (zval_to_value_inner heap left) (inner-Yields heap hh left) heap hh
      (heap.objects id) (hh.objects id))
inner-Yields heap hh (suc left) (Zval.reference c) h = throws
inner-Yields heap hh (suc left) (Zval.other t) h = throws

-- On every well-formed zval of a heap of well-formed objects, cyclic or not, `px_zval_to_value`
-- throws, or gives a well-formed value of at most 257 levels; no builder is called out of its
-- bounds.
pub px_zval_to_value-Yields :
    (heap : Heap) (z : Zval)
    → IsHeap heap
    → IsZval z
    → Yields (λ v. IsValue v × (depth v ≤ 257)) (px_zval_to_value heap z)
unfolding px_zval_to_value
px_zval_to_value-Yields heap z hh h = inner-Yields heap hh 257 z h
