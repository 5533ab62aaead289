-- ===== src/Bridge/Capture/Endless.antt =====
-- Data without an end, such as an object that holds itself, is refused.
use php_parallax.Prelude.{
  ℕ, zero, suc, ◌≡◌, ◌≢◌, refl, sym, ap, ◌∙◌, false, List, ◌∷◌, Bool-cases, inl, inr,
}
use php_parallax.Value.{Key, Value, value_arr, value_obj}
use php_parallax.Bridge.Types.{
  Zval, Table, entry, num_elements, Property, Heap, Thrown, Attempt, ok, thrown, broken, Yields,
  >>=-eq-ok,
}
use php_parallax.Bridge.Capture.{
  is_undef, is_reference, deref, set_entry, capture_element, capture_elements, array_to_value,
  capture_slot, capture_declared, declared_pass, dynamic_properties, object_to_value,
  zval_to_value_inner, px_zval_to_value,
}
use php_parallax.Bridge.Capture.Wellformed.{IsZval, IsHeap}
use php_parallax.Bridge.Capture.Sound.{px_zval_to_value-Yields}

-- The table has this element.
pub data Element (z : Zval) : Table → Type 0 where
  here : (k : Key) (y : Zval) (ht : Table) → y ≡ z → Element z (entry k y ht)
  there : (k : Key) (y : Zval) (ht : Table) → Element z ht → Element z (entry k y ht)

-- The list of properties has this one.
pub data Declared (p : Property) : List Property → Type 0 where
  first : (q : Property) (infos : List Property) → q ≡ p → Declared p (q ∷ infos)
  later : (q : Property) (infos : List Property) → Declared p infos → Declared p (q ∷ infos)

-- `Child heap z y`: `y` is an element of the array `z`, or stands in a declared property, not
-- static and not undefined, of the object `z`, behind a reference or not.
pub data Child (heap : Heap) : Zval → Zval → Type 0 where
  element : (ht : Table) (y : Zval) → Element y ht → Child heap (Zval.array ht) y
  property :
      (id : ℕ) (p : Property) (y : Zval)
      → Declared p (heap.objects id).ce.properties
      → p.is_static ≡ false
      → is_undef ((heap.objects id).slots p.offset) ≡ false
      → deref heap ((heap.objects id).slots p.offset) ≡ y
      → Child heap (Zval.object id) y

module _ (convert : Zval → Attempt Value) where
  Element-ok :
      (z : Zval) (ht : Table) (into v : Value)
      → Element z ht
      → capture_elements convert ht into ≡ ok v
      → (w : Value) × (convert z ≡ ok w)
  unfolding capture_elements capture_element
  Element-ok z _ into v (here k y ht e) h = elim (Bool-cases (is_reference y)) [
    | inl by_ref ↦ absurd (cc (rw by_ref at h))
    | inr plain ↦
        let (_, step, _) = >>=-eq-ok _ (capture_elements convert ht) (rw plain at h) in
        let (w, converted, _) = >>=-eq-ok (convert y) (set_entry into k) step in
        (w, ap convert (sym e) ∙ converted)
  ]
  Element-ok z _ into v (there k y ht m) h =
      let (next, _, rest) =
        >>=-eq-ok (capture_element convert k y into) (capture_elements convert ht) h in
      Element-ok z ht next v m rest

  Declared-ok :
      (heap : Heap) (slots : ℕ → Zval) (p : Property) (infos : List Property) (obj_v v : Value)
      → Declared p infos
      → p.is_static ≡ false
      → is_undef (slots p.offset) ≡ false
      → declared_pass convert heap slots infos obj_v ≡ ok v
      → (w : Value) × (convert (deref heap (slots p.offset)) ≡ ok w)
  unfolding declared_pass capture_declared capture_slot
  Declared-ok heap slots p _ obj_v v (first q infos e) own set h =
      let (_, step, _) =
        >>=-eq-ok (capture_declared convert heap slots q obj_v)
          (declared_pass convert heap slots infos) h in
      let step' : capture_declared convert heap slots p obj_v ≡ _ =
        ap (λ r. capture_declared convert heap slots r obj_v) (sym e) ∙ step in
      let (w, converted, _) =
        >>=-eq-ok (convert (deref heap (slots p.offset))) _ (rw (own, set) at step') in
      (w, converted)
  Declared-ok heap slots p _ obj_v v (later q infos m) own set h =
      let (next, _, rest) =
        >>=-eq-ok (capture_declared convert heap slots q obj_v)
          (declared_pass convert heap slots infos) h in
      Declared-ok heap slots p infos next v m own set rest

-- What is captured has captured children, one level down.
Child-ok :
    (heap : Heap) (left : ℕ) (z y : Zval) (v : Value)
    → Child heap z y
    → zval_to_value_inner heap (suc left) z ≡ ok v
    → (w : Value) × (zval_to_value_inner heap left y ≡ ok w)
unfolding zval_to_value_inner array_to_value object_to_value
Child-ok heap left _ y v (element ht y' m) h =
    Element-ok (zval_to_value_inner heap left) y ht (value_arr (num_elements ht)) v m h
Child-ok heap left _ y v (property id p y' m own set e) h =
    let o = heap.objects id in
    elim (Bool-cases o.ce.is_closure) [
      | inl closure ↦ absurd (cc (rw closure at h))
      | inr plain ↦ elim (Bool-cases o.ce.native) [
        | inl native ↦ absurd (cc (rw (plain, native) at h))
        | inr portable ↦
            let convert = zval_to_value_inner heap left in
            let (_, declared, _) =
              >>=-eq-ok (declared_pass convert heap o.slots o.ce.properties (value_obj o.ce.name 0))
                (dynamic_properties convert heap o.dynamic) (rw (plain, portable) at h) in
            let (w, captured) =
              Declared-ok convert heap o.slots p o.ce.properties (value_obj o.ce.name 0) _ m own set
                declared in
            (w, ap convert (sym e) ∙ captured)
      ]
    ]

module _ (heap : Heap) (P : Zval → Type 0)
    (endless : (z : Zval) → P z → (y : Zval) × Child heap z y × P y) where
  endless-not-ok : (left : ℕ) (z : Zval) (v : Value) → P z → zval_to_value_inner heap left z ≢ ok v
  endless-not-ok zero z v p h = unfold zval_to_value_inner in (cc h)
  endless-not-ok (suc left) z v p h =
      let (y, child, q) = endless z p in
      let (w, captured) = Child-ok heap left z y v child h in endless-not-ok left y w q captured

refused-cases :
    (P : Value → Type 0) (r : Attempt Value)
    → Yields P r
    → ((v : Value) → r ≢ ok v)
    → (t : Thrown) × (r ≡ thrown t)
refused-cases P (ok v) h no_value = absurd (no_value v refl)
refused-cases P (thrown t) h no_value = (t, refl)
refused-cases P broken h no_value = elim h [ ]

-- For a predicate each of whose zvals has a child with the predicate, so that data with it has no
-- end, `px_zval_to_value` ends on a well-formed zval with the predicate by throwing, where the heap
-- is well-formed.
pub px_zval_to_value_endless :
    (heap : Heap) (P : Zval → Type 0) (z : Zval)
    → ((x : Zval) → P x → (y : Zval) × Child heap x y × P y)
    → IsHeap heap
    → IsZval z
    → P z
    → (t : Thrown) × (px_zval_to_value heap z ≡ thrown t)
unfolding px_zval_to_value
px_zval_to_value_endless heap P z endless hh hz p =
    refused-cases _ (px_zval_to_value heap z) (px_zval_to_value-Yields heap z hh hz)
      (λ v h. endless-not-ok heap P endless 257 z v p h)
