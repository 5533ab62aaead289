-- ===== src/Bridge/Materialise/Transfer.antt =====
-- PHP data that holds no object arrives in the other interpreter as it was.
use php_parallax.Prelude.{ℕ, zero, suc, ◌+◌, ◌≤◌, ◌<◌, ◌≡◌, ◌≢◌, refl, sym, ap, arith, max, false}
use php_parallax.Prelude.Int.{ℤ}
use php_parallax.Value.{
  Bytes, Key, int_key, str_key, Value, Items, null, bool, long, double, str, arr, nil, item, count,
  snoc, join, value_arr_set_int, value_arr_set_str,
}
use php_parallax.Value.Capacity.{append_kv-fits, count-snoc, join-snoc, join-nil}
use php_parallax.Bridge.Types.{Zval, Table, end, entry, num_elements, Heap, Attempt, ok}
use php_parallax.Bridge.Zend.{plainly, proceed}
use php_parallax.Bridge.Capture.{
  is_reference, set_entry, capture_element, capture_elements, array_to_value, zval_to_value_inner,
  px_zval_to_value,
}
use php_parallax.Bridge.Materialise.{
  Engine, add_entry, value_to_zval_inner, kv_block_to_array, px_value_to_zval,
}

abbrev pub append : Table → Key → Zval → Table
append end k z = entry k z end
append (entry j y ht) k z = entry j y (append ht k z)

abbrev pub concat : Table → Table → Table
concat end rest = rest
concat (entry j y ht) rest = entry j y (concat ht rest)

abbrev pub Absent : Key → Table → Type 0
Absent k end = Unit {0}
Absent k (entry j y ht) = (j ≢ k) × Absent k ht

-- What the engine documents of an update under a key that is not there: the entry is added at the
-- end. A string that reads as an integer is another key.
pub record ArrayLaws (e : Engine) : Type 0 where
  pub index_fresh :
      (ht : Table) (i : ℤ) (z : Zval)
      → Absent (int_key i) ht
      → e.add_index_zval ht i z ≡ append ht (int_key i) z
  pub assoc_fresh :
      (ht : Table) (s : Bytes) (z : Zval)
      → e.is_numeric s ≡ false
      → Absent (str_key s) ht
      → e.add_assoc_zval ht s z ≡ append ht (str_key s) z

-- The levels of a zval: 1 for a scalar, one more for each array around it.
abbrev mutual
  pub levels : Zval → ℕ
  levels (Zval.array ht) = suc (table_levels ht)
  levels _ = 1

  pub table_levels : Table → ℕ
  table_levels end = 0
  table_levels (entry k z ht) = max (levels z) (table_levels ht)

module _ (e : Engine) where
  abbrev pub IsArrayKey : Key → Type 0
  IsArrayKey (int_key i) = Unit {0}
  IsArrayKey (str_key s) = e.is_numeric s ≡ false

  -- Scalars, strings, and arrays of such whose keys are distinct and as PHP keeps them.
  abbrev mutual
    pub IsData : Zval → Type 0
    IsData Zval.null = Unit {0}
    IsData (Zval.bool b) = Unit {0}
    IsData (Zval.long i) = Unit {0}
    IsData (Zval.double d) = Unit {0}
    IsData (Zval.string s) = Unit {0}
    IsData (Zval.array ht) = IsDataTable ht
    IsData _ = ⊥

    pub IsDataTable : Table → Type 0
    IsDataTable end = Unit {0}
    IsDataTable (entry k z ht) = IsArrayKey k × IsData z × Absent k ht × IsDataTable ht

-- Every key of the second table is absent from the first.
abbrev Apart : Table → Table → Type 0
Apart ht end = Unit {0}
Apart ht (entry k z rest) = Absent k ht × Apart ht rest

pub concat-end : (ht : Table) → concat ht end ≡ ht
concat-end end = refl
concat-end (entry k z ht) = ap (entry k z) (concat-end ht)

pub concat-append :
    (ht : Table) (k : Key) (z : Zval) (rest : Table)
    → concat (append ht k z) rest ≡ concat ht (entry k z rest)
concat-append end k z rest = refl
concat-append (entry j y ht) k z rest = ap (entry j y) (concat-append ht k z rest)

Absent-append : (ht : Table) (k j : Key) (z : Zval) → Absent j ht → k ≢ j → Absent j (append ht k z)
Absent-append end k j z h ne = (ne, tt)
Absent-append (entry i y ht) k j z h ne = (h.0, Absent-append ht k j z h.1 ne)

Apart-append :
    (ht : Table) (k : Key) (z : Zval) (rest : Table)
    → Apart ht rest
    → Absent k rest
    → Apart (append ht k z) rest
Apart-append ht k z end h a = tt
Apart-append ht k z (entry j y rest) h a =
    (Absent-append ht k j z h.0 (λ e. a.0 (sym e)), Apart-append ht k z rest h.1 a.1)

end-Apart : (ht : Table) → Apart end ht
end-Apart end = tt
end-Apart (entry k z ht) = (tt, end-Apart ht)

data-not-reference : (e : Engine) (z : Zval) → IsData e z → is_reference z ≡ false
data-not-reference e (Zval.reference c) h = absurd h
data-not-reference e Zval.undef h = refl
data-not-reference e Zval.null h = refl
data-not-reference e Zval.resource h = refl
data-not-reference e (Zval.bool b) h = refl
data-not-reference e (Zval.long i) h = refl
data-not-reference e (Zval.double d) h = refl
data-not-reference e (Zval.string s) h = refl
data-not-reference e (Zval.array ht) h = refl
data-not-reference e (Zval.object id) h = refl
data-not-reference e (Zval.other t) h = refl

set_entry-fits :
    (xs : Items) (cap : ℕ) (k : Key) (v : Value)
    → count xs < cap
    → set_entry (arr xs cap) k v ≡ ok (arr (snoc xs k v) cap)
unfolding set_entry value_arr_set_int value_arr_set_str
set_entry-fits xs cap (int_key i) v h = rw (append_kv-fits xs cap (int_key i) v h)
set_entry-fits xs cap (str_key s) v h = rw (append_kv-fits xs cap (str_key s) v h)

module _ (e : Engine) (laws : ArrayLaws e) where
  add_entry-append :
      (ht : Table) (k : Key) (z : Zval)
      → IsArrayKey e k
      → Absent k ht
      → add_entry e ht k z ≡ append ht k z
  unfolding add_entry
  add_entry-append ht (int_key i) z hk a = laws.index_fresh ht i z a
  add_entry-append ht (str_key s) z hk a = laws.assoc_fresh ht s z hk a

  -- The zval is captured, and materialises as itself.
  abbrev pub Arrives : (Zval → Attempt Value) → Zval → Type 0
  Arrives convert z =
      (v : Value) × (convert z ≡ ok v)
      × ((w : e.World) → value_to_zval_inner e v w ≡ (w, plainly z))

  elements-Arrives :
      (n : ℕ) (convert : Zval → Attempt Value)
      → ((z : Zval) → IsData e z → levels z ≤ n → Arrives convert z)
      → (ht : Table) (xs : Items) (cap : ℕ) → IsDataTable e ht
      → table_levels ht ≤ n
      → count xs + num_elements ht ≡ cap
      → (ys : Items) × (capture_elements convert ht (arr xs cap) ≡ ok (arr (join xs ys) cap))
        × ((w : e.World) (target : Table)
            → Apart target ht
            → kv_block_to_array e ys target w ≡ (w, plainly (concat target ht)))
  unfolding capture_elements capture_element value_to_zval_inner proceed
  elements-Arrives n convert arrive end xs cap h low fill = (
    nil,
    ap (λ ys. ok (arr ys cap)) (sym (join-nil xs)),
    λ w target a. ap (λ t. (w, plainly t)) (sym (concat-end target)),
  )
  elements-Arrives n convert arrive (entry k z ht) xs cap (hk, hz, fresh, hr) low fill =
      let (v, captured, back) = arrive z hz (omega arith) in
      let (ys, rest, built) =
        elements-Arrives n convert arrive ht (snoc xs k v) cap hr (omega arith)
          (omega (arith, count-snoc xs k v)) in
      (
        item k v ys,
        rw (
          data-not-reference e z hz,
          captured,
          set_entry-fits xs cap k v (omega arith),
          rest,
          join-snoc xs k v ys,
        ),
        λ w target a. rw (
          back w,
          add_entry-append target k z hk a.0,
          built w (append target k z) (Apart-append target k z ht a.1 fresh),
          concat-append target k z ht,
        ),
      )

  inner-Arrives :
      (heap : Heap) (left : ℕ) (z : Zval)
      → IsData e z
      → levels z ≤ left
      → Arrives (zval_to_value_inner heap left) z
  unfolding zval_to_value_inner value_to_zval_inner array_to_value proceed
  inner-Arrives heap zero (Zval.array ht) h low = absurd (omega arith)
  inner-Arrives heap zero Zval.null h low = absurd (omega arith)
  inner-Arrives heap zero (Zval.bool b) h low = absurd (omega arith)
  inner-Arrives heap zero (Zval.long i) h low = absurd (omega arith)
  inner-Arrives heap zero (Zval.double d) h low = absurd (omega arith)
  inner-Arrives heap zero (Zval.string s) h low = absurd (omega arith)
  inner-Arrives heap zero Zval.undef h low = absurd h
  inner-Arrives heap zero Zval.resource h low = absurd h
  inner-Arrives heap zero (Zval.object id) h low = absurd h
  inner-Arrives heap zero (Zval.reference c) h low = absurd h
  inner-Arrives heap zero (Zval.other t) h low = absurd h
  inner-Arrives heap (suc left) Zval.null h low = (null, refl, λ w. refl)
  inner-Arrives heap (suc left) (Zval.bool b) h low = (bool b, refl, λ w. refl)
  inner-Arrives heap (suc left) (Zval.long i) h low = (long i, refl, λ w. refl)
  inner-Arrives heap (suc left) (Zval.double d) h low = (double d, refl, λ w. refl)
  inner-Arrives heap (suc left) (Zval.string s) h low = (str s, refl, λ w. refl)
  inner-Arrives heap (suc left) (Zval.array ht) h low =
      let (ys, captured, built) =
        elements-Arrives left (zval_to_value_inner heap left) (inner-Arrives heap left) ht nil
          (num_elements ht) h (omega arith) (omega arith) in
      (arr ys (num_elements ht), captured, λ w. rw (built w end (end-Apart ht)))
  inner-Arrives heap (suc left) Zval.undef h low = absurd h
  inner-Arrives heap (suc left) Zval.resource h low = absurd h
  inner-Arrives heap (suc left) (Zval.object id) h low = absurd h
  inner-Arrives heap (suc left) (Zval.reference c) h low = absurd h
  inner-Arrives heap (suc left) (Zval.other t) h low = absurd h

-- Where the engine adds an entry under a fresh key at the end, a zval of at most 257 levels that is
-- built from scalars, strings and arrays with distinct keys as PHP keeps them is captured, and what
-- is captured materialises in any world as that zval, throws nothing, and leaves the world as it
-- was.
pub px_value_to_zval-px_zval_to_value :
    (e : Engine) (heap : Heap) (z : Zval)
    → ArrayLaws e
    → IsData e z
    → levels z ≤ 257
    → (v : Value) × (px_zval_to_value heap z ≡ ok v)
      × ((w : e.World) → px_value_to_zval e w v ≡ (w, plainly z))
unfolding px_zval_to_value px_value_to_zval
px_value_to_zval-px_zval_to_value e heap z laws h low = inner-Arrives e laws heap 257 z h low
