-- ===== src/Userland/Results.antt =====
-- What `wait` hands back, whatever the engine throws.
use php_parallax.Prelude.{
  ℕ, zero, suc, ◌+◌, ◌<◌, ◌≡◌, refl, ap, subst, arith, Bool, true, false, not, ◌&&◌, some,
  if◌then◌else◌,
}
use php_parallax.Prelude.Int.{pos}
use php_parallax.Value.{Bytes, Key, int_key, Value}
use php_parallax.WaitGroup.{WaitGroup, Task, wg_get, wg_size}
use php_parallax.Bridge.Types.{Zval, Table, end, entry, num_elements, ok}
use php_parallax.Bridge.Zend.{Run, return, Sound, goes, Sound-bind, Sound-call}
use php_parallax.Bridge.Materialise.{Engine}
use php_parallax.Bridge.Materialise.Transfer.{append}
use php_parallax.Bridge.Materialise.Classes.{
  Constructible, Constructs, IsObjectZval, write_property-Sound, px_value_to_zval-Sound,
}
use php_parallax.Bridge.Callable.{Callable}
use php_parallax.Userland.Calls.{WaitGroupObject}
use php_parallax.Userland.Wait.{
  Results, write_bool, write_value, make_result, collect, wait_results, wait_group, php_wait,
  ok_word, value_word, error_word,
}
use php_parallax.Bridge.Runner.Flow.{is_absent}

-- The keys are `i`, `i + 1`, and so on, and each entry is an object.
abbrev pub Indexed : ℕ → Table → Type 0
Indexed i end = Unit {0}
Indexed i (entry k z ht) = (k ≡ int_key (pos i)) × IsObjectZval z × Indexed (suc i) ht

Indexed-append :
    (i : ℕ) (ht : Table) (z : Zval)
    → Indexed i ht
    → IsObjectZval z
    → Indexed i (append ht (int_key (pos (i + num_elements ht))) z)
Indexed-append i end z h object = (ap (λ (n : ℕ). int_key (pos n)) (omega arith), object, tt)
Indexed-append i (entry k y ht) z h object = (
  h.0,
  h.1,
  subst (λ (n : ℕ). Indexed (suc i) (append ht (int_key (pos n)) z)) (omega arith)
      (Indexed-append (suc i) ht z h.2 object),
)

num_elements-append :
    (ht : Table) (k : Key) (z : Zval) → num_elements (append ht k z) ≡ suc (num_elements ht)
num_elements-append end k z = refl
num_elements-append (entry j y ht) k z = ap suc (num_elements-append ht k z)

-- The next index of an array with the keys 0 to n - 1 is n.
abbrev pub AppendsNext : {e : Engine} → Results e → Type 0
AppendsNext u =
    (ht : Table) (z : Zval)
    → Indexed 0 ht
    → u.add_next_index_zval ht z ≡ append ht (int_key (pos (num_elements ht))) z

-- The classes under the names in the result and the error of each task can be instantiated.
abbrev pub Reports : Engine → WaitGroup Callable → Type 0
Reports e wg =
    (i : ℕ) → i < wg.count → Constructs e (wg.tasks i).result × Constructs e (wg.tasks i).error

-- An array of objects under the slots in order.
abbrev pub Lists : WaitGroup Callable → Table → Type 0
Lists wg ht = (num_elements ht ≡ wg_size wg) × Indexed 0 ht

abbrev Any : {A : Type 0} → A → Type 0
Any a = Unit {0}

slot-there : (wg : WaitGroup Callable) (i : ℕ) → i < wg.count → wg_get wg i ≡ some (wg.tasks i)
unfolding wg_get
slot-there wg i lt = ground arith

module _ (e : Engine) (u : Results e) where
  either-Sound :
      (b : Bool) (m : Run e.World (Unit {0})) (w : e.World)
      → Sound Any (m w)
      → Sound Any ((if b then m else return tt) w)
  either-Sound true m w h = h
  either-Sound false m w h = goes tt

  write_bool-Sound :
      (slot : Zval) (name : Bytes) (b : Bool) (w : e.World)
      → IsObjectZval slot
      → Sound Any (write_bool e u slot name b w)
  unfolding write_bool
  write_bool-Sound slot name b w (id, h) = rw h (Sound-call _ w λ a eq. tt)

  write_value-Sound :
      (slot : Zval) (name : Bytes) (v : Value) (w : e.World)
      → IsObjectZval slot
      → Constructs e v
      → Sound Any (write_value e u slot name v w)
  unfolding write_value
  write_value-Sound slot name v w is_object makes =
      Sound-bind (px_value_to_zval-Sound e w v makes)
        λ z w₁ t. write_property-Sound e u.result_class slot name z w₁ is_object

  make_result-Sound :
      (t : Task Callable) (w : e.World)
      → Constructible e u.result_class
      → Constructs e t.result
      → Constructs e t.error
      → Sound IsObjectZval (make_result e u t w)
  unfolding make_result
  make_result-Sound t w makes result error =
      Sound-bind {P = IsObjectZval} (Sound-call _ w λ z eq. makes w z eq) λ slot w₁ is_object.
        Sound-bind (write_bool-Sound slot ok_word t.ok w₁ is_object) λ a w₂ x.
          Sound-bind
            (either-Sound (t.ok && not (is_absent t.result))
              (write_value e u slot value_word t.result) w₂
              (write_value-Sound slot value_word t.result w₂ is_object result))
            λ a w₃ x.
              Sound-bind
                (either-Sound (not t.ok && not (is_absent t.error))
                  (write_value e u slot error_word t.error) w₃
                  (write_value-Sound slot error_word t.error w₃ is_object error))
                λ a w₄ x. goes is_object

  module _ (next : AppendsNext u) (makes : Constructible e u.result_class) where
    collect-Sound :
        (wg : WaitGroup Callable) (left i : ℕ) (target : Table) (w : e.World)
        → Reports e wg
        → i + left ≡ wg.count
        → Indexed 0 target
        → num_elements target ≡ i
        → Sound (Lists wg) (collect e u wg left i target w)
    unfolding collect
    collect-Sound wg zero i target w reports total indexed n =
        goes (omega (arith, total, n), indexed)
    collect-Sound wg (suc left) i target w reports total indexed n =
        let lt : i < wg.count = omega (arith, total) in
        rw (slot-there wg i lt) (
          Sound-bind (make_result-Sound (wg.tasks i) w makes (reports i lt).0 (reports i lt).1)
            λ slot w₁ is_object. rw (next target slot indexed) (
              collect-Sound wg left (suc i)
                (append target (int_key (pos (num_elements target))) slot) w₁ reports
                (omega (arith, total))
                (subst (λ (m : ℕ). Indexed 0 (append target (int_key (pos m)) slot)) (omega arith)
                  (Indexed-append 0 target slot indexed is_object))
                (omega (
                  arith,
                  num_elements-append target (int_key (pos (num_elements target))) slot,
                  n,
                ))))

    -- Where ParallaxResult and the classes under the names in the results and the errors of the
    -- tasks can be instantiated, and the next index of an array with the keys 0 to n - 1 is n,
    -- `wait` on an object with a group, behind `wg_wait`, does not throw on its own, and whatever
    -- the calls of the engine throw, it bails out with one of them, or returns an array with an
    -- object for each task, whose keys are the slots in order; no task is NULL, and nothing is
    -- written to a zval that is no object.
    pub php_wait-Lists :
        (self : WaitGroupObject) (wg : WaitGroup Callable)
        → self.wg ≡ some wg
        → Reports e wg
        → (run : Run e.World Table) × (php_wait e u self ≡ ok run)
          × ((w : e.World) → Sound (Lists wg) (run w))
    unfolding php_wait wait_group wait_results
    php_wait-Lists self wg here reports = (
      wait_results e u wg,
      rw here,
      λ w. collect-Sound wg wg.count 0 end w reports (omega arith) tt refl,
    )
