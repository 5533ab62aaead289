-- ===== src/Bridge/Materialise/Classes.antt =====
-- `px_value_to_zval` where the classes of the objects can be instantiated.
use php_parallax.Prelude.{ℕ, ◌≡◌, Option, some}
use php_parallax.Value.{
  Bytes, CStr, Value, Items, absent, null, bool, long, double, str, arr, obj, err, nil, item,
}
use php_parallax.Prelude.Int.{ℤ}
use php_parallax.Bridge.Types.{Zval, Table, end, Class}
use php_parallax.Bridge.Zend.{Sound, goes, Sound-bind, Sound-call}
use php_parallax.Bridge.Materialise.{
  Engine, class_word, message_word, code_word, trace_word, add_entry, class_or_standard,
  write_property, error_to_object, property_name, value_to_zval_inner, kv_block_to_array,
  kv_block_to_object, px_value_to_zval,
}

-- `object_init_ex` on the class gives an object, or bails out.
abbrev pub Constructible : (e : Engine) → Class → Type 0
Constructible e ce =
    (w : e.World) (z : Zval)
    → (e.object_init w ce).1.answer ≡ some z
    → (id : ℕ) × (z ≡ Zval.object id)

-- The classes under the names in the value can be instantiated.
abbrev mutual
  pub Constructs : Engine → Value → Type 0
  Constructs e (arr items cap) = ConstructsAll e items
  Constructs e (obj cls props cap) =
      ((w : e.World) (found : Option Class)
        → (e.lookup_class w cls).1.answer ≡ some found
        → Constructible e (class_or_standard e found))
      × ConstructsAll e props
  Constructs e (err cls msg code trace) = Constructible e e.worker_error_class
  Constructs e _ = Unit {0}

  pub ConstructsAll : Engine → Items → Type 0
  ConstructsAll e nil = Unit {0}
  ConstructsAll e (item k v xs) = Constructs e v × ConstructsAll e xs

-- Nothing is asked.
abbrev Any : {A : Type 0} → A → Type 0
Any a = Unit {0}

abbrev pub IsObjectZval : Zval → Type 0
IsObjectZval z = (id : ℕ) × (z ≡ Zval.object id)

module _ (e : Engine) where
  pub write_property-Sound :
      (ce : Class) (target : Zval) (name : Bytes) (z : Zval) (w : e.World)
      → IsObjectZval target
      → Sound Any (write_property e ce target name z w)
  unfolding write_property
  write_property-Sound ce target name z w (id, h) = rw h (Sound-call _ w λ a eq. tt)

  error_to_object-Sound :
      (cls msg : CStr) (code : ℤ) (trace : CStr) (w : e.World)
      → Constructible e e.worker_error_class
      → Sound Any (error_to_object e cls msg code trace w)
  unfolding error_to_object
  error_to_object-Sound cls msg code trace w h =
      Sound-bind {P = IsObjectZval} (Sound-call _ w λ z eq. h w z eq) λ out w₁ is_object.
        Sound-bind (write_property-Sound _ out class_word _ w₁ is_object) λ u w₂ t.
          Sound-bind (write_property-Sound _ out message_word _ w₂ is_object) λ u w₃ t.
            Sound-bind (write_property-Sound _ out code_word _ w₃ is_object) λ u w₄ t.
              Sound-bind (write_property-Sound _ out trace_word _ w₄ is_object) λ u w₅ t. goes tt

  mutual
    unfolding value_to_zval_inner

    value_to_zval_inner-Sound :
        (v : Value) (w : e.World) → Constructs e v → Sound Any (value_to_zval_inner e v w)
    value_to_zval_inner-Sound absent w h = goes tt
    value_to_zval_inner-Sound null w h = goes tt
    value_to_zval_inner-Sound (bool b) w h = goes tt
    value_to_zval_inner-Sound (long i) w h = goes tt
    value_to_zval_inner-Sound (double d) w h = goes tt
    value_to_zval_inner-Sound (str p) w h = goes tt
    value_to_zval_inner-Sound (arr items cap) w h =
        Sound-bind (kv_block_to_array-Sound items end w h) λ target w₁ t. goes tt
    value_to_zval_inner-Sound (obj cls props cap) w h =
        Sound-bind {P = λ found. Constructible e (class_or_standard e found)}
          (Sound-call _ w λ found eq. h.0 w found eq)
          λ found w₁ makes.
            Sound-bind {P = IsObjectZval} (Sound-call _ w₁ λ z eq. makes w₁ z eq)
              λ target w₂ is_object.
                Sound-bind
                  (kv_block_to_object-Sound props target (class_or_standard e found) w₂ is_object
                    h.1)
                  λ u w₃ t. goes tt
    value_to_zval_inner-Sound (err cls msg code trace) w h =
        error_to_object-Sound cls msg code trace w h

    kv_block_to_array-Sound :
        (items : Items) (target : Table) (w : e.World)
        → ConstructsAll e items
        → Sound Any (kv_block_to_array e items target w)
    kv_block_to_array-Sound nil target w h = goes tt
    kv_block_to_array-Sound (item k v items) target w h =
        Sound-bind (value_to_zval_inner-Sound v w h.0)
          λ child w₁ t. kv_block_to_array-Sound items (add_entry e target k child) w₁ h.1

    kv_block_to_object-Sound :
        (props : Items) (target : Zval) (ce : Class) (w : e.World)
        → IsObjectZval target
        → ConstructsAll e props
        → Sound Any (kv_block_to_object e props target ce w)
    kv_block_to_object-Sound nil target ce w is_object h = goes tt
    kv_block_to_object-Sound (item k v props) target ce w is_object h =
        Sound-bind (value_to_zval_inner-Sound v w h.0) λ child w₁ t.
          Sound-bind (write_property-Sound ce target (property_name k) child w₁ is_object)
            λ u w₂ t'. kv_block_to_object-Sound props target ce w₂ is_object h.1

-- Where the classes under the names in a value, and that of errors where it holds one, can be
-- instantiated, whatever the calls of the engine throw or bail out of, the value materialises
-- without undefined behaviour: no property is written to a zval that is no object.
pub px_value_to_zval-Sound :
    (e : Engine) (w : e.World) (v : Value)
    → Constructs e v
    → Sound (λ z. Unit {0}) (px_value_to_zval e w v)
unfolding px_value_to_zval
px_value_to_zval-Sound e w v h = value_to_zval_inner-Sound e v w h
