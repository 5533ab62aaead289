-- ===== src/Bridge/Callable/Recipes.antt =====
-- What a resolved callable holds, by its kind.
use php_parallax.Prelude.{
  ℕ, suc, ◌*◌, ◌^◌, ◌<◌, ◌≡◌, ◌≢◌, refl, arith, [], ◌∷◌, Option, none, some, ◌==◌, Bool-cases, inl,
  inr,
}
use php_parallax.Value.{Bytes, CStr, Key, int_key, str_key, Value, arr, nil, IsKey, until_nul}
use php_parallax.Scanner.Extract.Depth.{SmallFiles, extract_closure_text-defined}
use php_parallax.Scanner.Extract.{Extract, found, failed, undefined, extract_closure_text}
use php_parallax.Bridge.Types.{
  Zval, Table, end, entry, num_elements, Class, Function, Heap, Yields, yields, throws, Yields-bind,
  Yields-weaken,
}
use php_parallax.Bridge.Capture.{is_undef, is_reference, set_entry}
use php_parallax.Bridge.Capture.Wellformed.{IsZval, IsTable, table_of, IsHeap}
use php_parallax.Bridge.Capture.Sound.{px_zval_to_value-Yields}
use php_parallax.Bridge.Capture.Rows.{IsRow, IsArray, IsRow-IsArray, IsRow-fewer, set_entry-IsRow}
use php_parallax.Bridge.Callable.{
  Callable, of_function, of_method, of_closure, resolve_string, from_colon, string_of,
  resolve_members, resolve_pair, resolve_array, resolve_fake, snapshot_capture, snapshot_uses,
  snapshot_captures, is_bound, source_file, lift_extract, resolve_user_closure,
  px_resolve_inline_closure, resolve_closure, px_resolve_callable,
}

-- A recipe is for a named function, for a static method, or for a closure with its captures.
pub data IsCallable : Callable → Type 0 where
  named_function : (name : Bytes) → IsCallable (of_function name)
  named_method : (cls name : Bytes) → IsCallable (of_method cls name)
  captured_closure :
      (wrapper : Bytes) (captures : Value)
      → IsArray captures
      → IsCallable (of_closure wrapper captures)

-- The variables of a closure are well-formed, and there are less than a third of 2 ^ 63.
abbrev pub IsUses : Function → Type 0
IsUses fn =
    IsTable (table_of fn.static_variables)
    × (3 * num_elements (table_of fn.static_variables) < 2 ^ 63)

abbrev pub HasUses : Heap → Type 0
HasUses heap = (id : ℕ) (fn : Function) → (heap.objects id).function ≡ some fn → IsUses fn

resolve_string-IsCallable : (s sep : Bytes) → IsCallable (resolve_string s sep)
unfolding resolve_string
resolve_string-IsCallable s [] = named_function s
resolve_string-IsCallable s (c ∷ []) = named_function s
resolve_string-IsCallable s (c ∷ d ∷ name) = elim (Bool-cases (d == 58)) [
  | inl two ↦ rw two (named_method _ name)
  | inr one ↦ rw one (named_function s)
]

resolve_members-Yields : (first second : CStr) → Yields IsCallable (resolve_members first second)
unfolding resolve_members
resolve_members-Yields first none = throws
resolve_members-Yields none (some name) = throws
resolve_members-Yields (some cls) (some name) = yields (named_method cls name)

resolve_pair-Yields : (first second : Option Zval) → Yields IsCallable (resolve_pair first second)
unfolding resolve_pair
resolve_pair-Yields none second = throws
resolve_pair-Yields (some first) none = throws
resolve_pair-Yields (some first) (some second) =
    resolve_members-Yields (string_of first) (string_of second)

resolve_array-Yields : (ht : Table) → Yields IsCallable (resolve_array ht)
unfolding resolve_array
resolve_array-Yields ht = elim (Bool-cases (num_elements ht == 2)) [
  | inl two ↦ rw two (resolve_pair-Yields _ _)
  | inr other ↦ rw other throws
]

resolve_fake-IsCallable :
    (scope : Option Class) (name : Bytes) → IsCallable (resolve_fake scope name)
unfolding resolve_fake
resolve_fake-IsCallable none name = named_function name
resolve_fake-IsCallable (some scope) name = named_method scope.name name

module _ (heap : Heap) (hh : IsHeap heap) where
  snapshot_capture-Yields :
      (key : Key) (slot : Zval) (captures : Value) (m : ℕ)
      → IsKey key
      → IsZval slot
      → IsRow (suc m) captures
      → Yields (IsRow m) (snapshot_capture heap key slot captures)
  unfolding snapshot_capture set_entry
  snapshot_capture-Yields (int_key i) slot captures m hk hz h =
      yields (IsRow-fewer captures (suc m) m (omega arith) h)
  snapshot_capture-Yields (str_key s) slot captures m hk hz h =
      elim (Bool-cases (is_reference slot)) [
        | inl by_ref ↦ rw by_ref throws
        | inr plain ↦ rw plain (elim (Bool-cases (is_undef slot)) [
          | inl unset ↦ rw unset throws
          | inr assigned ↦ rw assigned (
              Yields-bind (px_zval_to_value-Yields heap slot hh hz) λ v hv.
                Yields-weaken (λ r hr. hr.0) (set_entry-IsRow captures m (str_key s) v h hk hv.0))
        ])
      ]

  snapshot_uses-Yields :
      (uses : Table) (captures : Value)
      → IsTable uses
      → IsRow (num_elements uses) captures
      → Yields IsArray (snapshot_uses heap uses captures)
  unfolding snapshot_uses
  snapshot_uses-Yields end captures h row = yields (IsRow-IsArray 0 captures row)
  snapshot_uses-Yields (entry key slot uses) captures h row =
      Yields-bind (snapshot_capture-Yields key slot captures (num_elements uses) h.0 h.1 row)
        λ captures' row'. snapshot_uses-Yields uses captures' h.2 row'

  snapshot_captures-Yields :
      (uses : Option Table)
      → IsTable (table_of uses)
      → 3 * num_elements (table_of uses) < 2 ^ 63
      → Yields IsArray (snapshot_captures heap uses)
  unfolding snapshot_captures
  snapshot_captures-Yields none h small = yields (tt, omega arith)
  snapshot_captures-Yields (some uses) h small =
      snapshot_uses-Yields uses (arr nil 0) h (tt, omega arith, omega (arith, small))

  source_file-Yields : (fname : CStr) → Yields (λ s. Unit {0}) (source_file fname)
  source_file-Yields none = throws
  source_file-Yields (some []) = throws
  source_file-Yields (some (c ∷ fname)) = yields tt

  lift_extract-Yields :
      (r : Extract Bytes) → r ≢ undefined → Yields (λ s. Unit {0}) (lift_extract r)
  lift_extract-Yields (found text) h = yields tt
  lift_extract-Yields (failed e) h = throws
  lift_extract-Yields undefined h = absurd (h refl)

  module _ (read_file_all : Bytes → Option Bytes) (small_files : SmallFiles read_file_all)
      (uses : HasUses heap) where
    resolve_user_closure-Yields :
        (id : ℕ) (fn : Function)
        → (heap.objects id).function ≡ some fn
        → Yields IsCallable (resolve_user_closure read_file_all heap (heap.objects id) fn)
    unfolding resolve_user_closure
    resolve_user_closure-Yields id fn target =
        let (table, small) = uses id fn target in
        elim (Bool-cases (is_bound (heap.objects id).this)) [
          | inl bound ↦ rw bound throws
          | inr free ↦ rw free (
              Yields-bind (source_file-Yields fn.filename) λ fname u.
                Yields-bind
                  (lift_extract-Yields
                    (extract_closure_text read_file_all (some (until_nul fname)) fn.line_start)
                    (extract_closure_text-defined read_file_all (until_nul fname) fn.line_start
                      small_files))
                  λ text u'.
                    Yields-bind (snapshot_captures-Yields fn.static_variables table small)
                      λ captures row. yields (captured_closure _ captures row))
        ]

    resolve_closure-Yields :
        (id : ℕ) (fn : Option Function)
        → (heap.objects id).function ≡ fn
        → Yields IsCallable (resolve_closure read_file_all heap (heap.objects id) fn)
    unfolding resolve_closure px_resolve_inline_closure
    resolve_closure-Yields id none target = throws
    resolve_closure-Yields id (some fn) target = elim (Bool-cases fn.fake) [
      | inl fake ↦ rw fake (yields (resolve_fake-IsCallable fn.scope fn.name))
      | inr inline ↦ rw inline (elim (Bool-cases fn.user) [
        | inl user ↦ rw user (resolve_user_closure-Yields id fn target)
        | inr internal ↦ rw internal throws
      ])
    ]

    -- Where the heap and the variables of its closures are well-formed and the files are smaller
    -- than 2 ^ 31 bytes, so that no depth of a scan leaves the range of an int,
    -- `px_resolve_callable` throws on a zval, or gives the recipe of a named function, of a static
    -- method, or of a closure whose captures are a well-formed array; the fields that do not belong
    -- to the kind are NULL.
    pub px_resolve_callable-Yields :
        (z : Zval) → Yields IsCallable (px_resolve_callable read_file_all heap z)
    unfolding px_resolve_callable
    px_resolve_callable-Yields (Zval.string s) = yields (resolve_string-IsCallable s (from_colon s))
    px_resolve_callable-Yields (Zval.array ht) = resolve_array-Yields ht
    px_resolve_callable-Yields (Zval.object id) =
        elim (Bool-cases (heap.objects id).ce.is_closure) [
          | inl closure ↦ rw closure (resolve_closure-Yields id (heap.objects id).function refl)
          | inr other ↦ rw other throws
        ]
    px_resolve_callable-Yields Zval.undef = throws
    px_resolve_callable-Yields Zval.null = throws
    px_resolve_callable-Yields Zval.resource = throws
    px_resolve_callable-Yields (Zval.bool b) = throws
    px_resolve_callable-Yields (Zval.long i) = throws
    px_resolve_callable-Yields (Zval.double d) = throws
    px_resolve_callable-Yields (Zval.reference c) = throws
    px_resolve_callable-Yields (Zval.other t) = throws
