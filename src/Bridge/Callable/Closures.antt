-- ===== src/Bridge/Callable/Closures.antt =====
-- The recipe of an inline closure: its text from the file, and its variables by value.
use php_parallax.Prelude.{
  ℕ, ◌≡◌, refl, sym, ap, ◌∙◌, true, false, [], ◌∷◌, ◌++◌, Option, none, some, if◌then◌else◌, ltb,
  ◌==◌, Bool-cases, inl, inr, Outcome, done, refused, fault, stuck,
}
use php_parallax.Value.{
  Bytes, CStr, int_key, str_key, Value, Items, arr, nil, item, count, snoc, join, grow, append_kv,
  value_arr_set_str, until_nul,
}
use php_parallax.Value.Capacity.{join-snoc, join-nil}
use php_parallax.Scanner.{offset_of_line}
use php_parallax.Scanner.Extract.{Extract, found, failed, undefined, extract_closure_text}
use php_parallax.Scanner.Extract.Slices.{ClosureText, extract_closure_text-ClosureText}
use php_parallax.Bridge.Types.{Zval, Table, end, entry, Function, Object, Heap, ok, lift, >>=-eq-ok}
use php_parallax.Bridge.Capture.{is_undef, is_reference, px_zval_to_value}
use php_parallax.Bridge.Capture.Wellformed.{table_of}
use php_parallax.Bridge.Callable.{
  Callable, of_closure, snapshot_capture, snapshot_uses, snapshot_captures, is_bound, wrapper_head,
  wrapper_tail, lift_extract, source_file, resolve_user_closure, px_resolve_inline_closure,
}

-- The entries are the variables with a name, in order, each by value: none is a reference, none is
-- unassigned.
abbrev pub Snapshots : Heap → Table → Items → Type 0
Snapshots heap end nil = Unit {0}
Snapshots heap end (item k v xs) = ⊥
Snapshots heap (entry (int_key i) z uses) xs = Snapshots heap uses xs
Snapshots heap (entry (str_key s) z uses) nil = ⊥
Snapshots heap (entry (str_key s) z uses) (item k v xs) =
    (k ≡ str_key s)
    × (is_reference z ≡ false)
    × (is_undef z ≡ false)
    × (px_zval_to_value heap z ≡ ok v)
    × Snapshots heap uses xs

lift-eq-ok : (m : Outcome Value) (v : Value) → lift m ≡ ok v → m ≡ done v
lift-eq-ok (done w) v h = cc
lift-eq-ok refused v h = cc
lift-eq-ok fault v h = cc
lift-eq-ok stuck v h = cc

set_str-snoc :
    (xs : Items) (cap : ℕ) (s : Bytes) (v r : Value)
    → value_arr_set_str (arr xs cap) s v ≡ done r
    → (cap' : ℕ) × (r ≡ arr (snoc xs (str_key s) v) cap')
unfolding value_arr_set_str append_kv
set_str-snoc xs cap s v r h =
    let cap' = if count xs == cap then grow cap else cap in
    elim (Bool-cases (ltb (count xs) cap')) [
      | inl fits ↦ (cap', cc (rw fits at h))
      | inr full ↦ absurd (cc (rw full at h))
    ]

snapshot_capture-eq-ok :
    (heap : Heap) (s : Bytes) (z : Zval) (xs : Items) (cap : ℕ) (r : Value)
    → snapshot_capture heap (str_key s) z (arr xs cap) ≡ ok r
    → (is_reference z ≡ false)
      × (is_undef z ≡ false)
      × (v : Value) × (px_zval_to_value heap z ≡ ok v)
      × (cap' : ℕ) × (r ≡ arr (snoc xs (str_key s) v) cap')
unfolding snapshot_capture
snapshot_capture-eq-ok heap s z xs cap r h = elim (Bool-cases (is_reference z)) [
  | inl by_ref ↦ absurd (cc (rw by_ref at h))
  | inr plain ↦
      let h₁ = rw plain at h in
      elim (Bool-cases (is_undef z)) [
        | inl unset ↦ absurd (cc (rw unset at h₁))
        | inr assigned ↦
            let (v, child, h₂) = >>=-eq-ok (px_zval_to_value heap z) _ (rw assigned at h₁) in
            let (cap', e) = set_str-snoc xs cap s v r (lift-eq-ok _ _ h₂) in
            (plain, assigned, v, child, cap', e)
      ]
]

snapshot_uses-Snapshots :
    (heap : Heap) (uses : Table) (xs : Items) (cap : ℕ) (r : Value)
    → snapshot_uses heap uses (arr xs cap) ≡ ok r
    → (ys : Items) × (cap' : ℕ) × (r ≡ arr (join xs ys) cap') × Snapshots heap uses ys
unfolding snapshot_uses snapshot_capture
snapshot_uses-Snapshots heap end xs cap r h = (nil, cap, rw (join-nil xs) cc, tt)
snapshot_uses-Snapshots heap (entry (int_key i) z uses) xs cap r h =
    snapshot_uses-Snapshots heap uses xs cap r h
snapshot_uses-Snapshots heap (entry (str_key s) z uses) xs cap r h =
    let (mid, first, rest) = >>=-eq-ok (snapshot_capture heap (str_key s) z (arr xs cap)) _ h in
    let (plain, assigned, v, child, cap₁, e) = snapshot_capture-eq-ok heap s z xs cap mid first in
    let (ys, cap₂, whole, taken) =
      snapshot_uses-Snapshots heap uses (snoc xs (str_key s) v) cap₁ r (rw e at rest) in
    (
      item (str_key s) v ys,
      cap₂,
      whole ∙ ap (λ t. arr t cap₂) (join-snoc xs (str_key s) v ys),
      (refl, plain, assigned, child, taken),
    )

snapshot_captures-Snapshots :
    (heap : Heap) (uses : Option Table) (captures : Value)
    → snapshot_captures heap uses ≡ ok captures
    → (xs : Items) × (cap : ℕ) × (captures ≡ arr xs cap) × Snapshots heap (table_of uses) xs
unfolding snapshot_captures
snapshot_captures-Snapshots heap none captures h = (nil, 0, cc, tt)
snapshot_captures-Snapshots heap (some uses) captures h =
    snapshot_uses-Snapshots heap uses nil 0 captures h

source_file-eq-ok : (name : CStr) (fname : Bytes) → source_file name ≡ ok fname → name ≡ some fname
source_file-eq-ok none fname h = cc
source_file-eq-ok (some []) fname h = cc
source_file-eq-ok (some (c ∷ s)) fname h = cc

lift_extract-eq-ok : (r : Extract Bytes) (text : Bytes) → lift_extract r ≡ ok text → r ≡ found text
lift_extract-eq-ok (found t) text h = cc
lift_extract-eq-ok (failed e) text h = cc
lift_extract-eq-ok undefined text h = cc

-- The closure of `fn` with its text and its variables: `c` is the text in a factory, with the
-- variables by value, and the text is cut from the file of the closure, at or behind its line.
pub record Portable (read_file_all : Bytes → Option Bytes) (heap : Heap) (fn : Function)
    (c : Callable) : Type 0 where
  pub fname : Bytes
  pub src : Bytes
  pub text : Bytes
  pub line_off : ℕ
  pub variables : Items
  pub cap : ℕ
  pub in_file : fn.filename ≡ some fname
  pub contents : read_file_all (until_nul fname) ≡ some src
  pub on_line : offset_of_line src fn.line_start ≡ some line_off
  pub cut : ClosureText src text line_off
  pub by_value : Snapshots heap (table_of fn.static_variables) variables
  pub recipe : c ≡ of_closure (wrapper_head ++ (until_nul text ++ wrapper_tail)) (arr variables cap)

ok-injective : (a b : Callable) → ok a ≡ ok b → a ≡ b
ok-injective a b h = cc

ok-recipe :
    (text : Bytes) (captures variables : Value) (c : Callable)
    → captures ≡ variables
    → ok (of_closure (wrapper_head ++ (until_nul text ++ wrapper_tail)) captures) ≡ ok c
    → c ≡ of_closure (wrapper_head ++ (until_nul text ++ wrapper_tail)) variables
ok-recipe text captures variables c same h =
    ok-injective c _ (sym h)
    ∙ ap (λ v. of_closure (wrapper_head ++ (until_nul text ++ wrapper_tail)) v) same

module _ (read_file_all : Bytes → Option Bytes) (heap : Heap) where
  user_closure-Portable :
      (o : Object) (fn : Function) (c : Callable)
      → is_bound o.this ≡ false
      → resolve_user_closure read_file_all heap o fn ≡ ok c
      → Portable read_file_all heap fn c
  unfolding resolve_user_closure
  user_closure-Portable o fn c free h =
      let (fname, named, h₁) = >>=-eq-ok (source_file fn.filename) _ (rw free at h) in
      let (text, extracted, h₂) =
        >>=-eq-ok
          (lift_extract (extract_closure_text read_file_all (some (until_nul fname)) fn.line_start))
          _ h₁ in
      let (captures, taken, h₃) = >>=-eq-ok (snapshot_captures heap fn.static_variables) _ h₂ in
      let (xs, cap, shape, by_value) =
        snapshot_captures-Snapshots heap fn.static_variables captures taken in
      let (src, contents, line_off, on_line, cut) =
        extract_closure_text-ClosureText read_file_all (until_nul fname) fn.line_start text
          (lift_extract-eq-ok _ _ extracted) in
      record {
        fname = fname;
        src = src;
        text = text;
        line_off = line_off;
        variables = xs;
        cap = cap;
        in_file = source_file-eq-ok fn.filename fname named;
        contents = contents;
        on_line = on_line;
        cut = cut;
        by_value = by_value;
        recipe = ok-recipe text captures (arr xs cap) c shape h₃;
      }

  -- Where `px_resolve_inline_closure` gives a recipe for a closure of a function, the function is a
  -- user's and `$this` is not bound; the recipe is the factory around a text that was cut from the
  -- file of the function at or behind its line, with the variables that have a name, in order, each
  -- captured by value, and none of them a reference or unassigned.
  pub px_resolve_inline_closure-Portable :
      (o : Object) (fn : Function) (c : Callable)
      → px_resolve_inline_closure read_file_all heap o (some fn) ≡ ok c
      → (fn.user ≡ true) × (is_bound o.this ≡ false) × Portable read_file_all heap fn c
  unfolding px_resolve_inline_closure resolve_user_closure
  px_resolve_inline_closure-Portable o fn c h = elim (Bool-cases fn.user) [
    | inr internal ↦ absurd (cc (rw internal at h))
    | inl user ↦
        let h₁ = rw user at h in
        elim (Bool-cases (is_bound o.this)) [
          | inl bound ↦ absurd (cc (rw bound at h₁))
          | inr free ↦ (user, free, user_closure-Portable o fn c free h₁)
        ]
  ]
