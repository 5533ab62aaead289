-- ===== src/Examples/Zvals.antt =====
-- Captures, transfers and callables.
use php_parallax.Prelude.{
  take, length, ◌<◌, ◌^◌, ℕ, ◌≤◌, ◌≡◌, refl, sym, subst, arith, [], ◌∷◌, ◌++◌, true, false, drop,
  Option, none, some, ◌⊎◌,
}
use php_parallax.Prelude.Int.{is_i32, pos}
use php_parallax.Value.{
  Bytes, int_key, str_key, Value, long, arr, obj, err, nil, item, IsValue, until_nul, grow,
  append_kv, value_arr_set_str,
}
use php_parallax.Scanner.{offset_of_line, line_loop, scan_brace_match, brace_loop}
use php_parallax.Scanner.Rounds.{scan_round}
use php_parallax.Scanner.Keywords.{scan_find_keyword, find_loop, at_token, is_ident_byte, starts}
use php_parallax.Scanner.Files.{Stream, IsWhole, read_whole, read_stream, read_file_all}
use php_parallax.Scanner.Extract.{
  found, contains, no_source, paren_round, open_loop, back_over_blanks, static_ends_at, walk_left,
  closure_span, extract_closure_text,
}
use php_parallax.Scanner.Extract.Slices.{ClosureText, extract_closure_text-read_file_all}
use php_parallax.Scanner.Extract.Walk.{walks_on, walk_left_ends}
use php_parallax.Bridge.Types.{Zval, end, entry, Function, Thrown, ok, thrown, Yields}
use php_parallax.Bridge.Capture.{zval_to_value_inner, px_zval_to_value}
use php_parallax.Bridge.Capture.Wellformed.{depth}
use php_parallax.Bridge.Capture.Sound.{px_zval_to_value-Yields}
use php_parallax.Bridge.Capture.Endless.{Child, property, first, px_zval_to_value_endless}
use php_parallax.Bridge.Zend.{plainly, Sound}
use php_parallax.Bridge.Materialise.Classes.{px_value_to_zval-Sound}
use php_parallax.Bridge.Materialise.{class_or_standard, px_value_to_zval}
use php_parallax.Bridge.Materialise.Transfer.{px_value_to_zval-px_zval_to_value}
use php_parallax.Bridge.Callable.{
  Callable, of_function, of_method, of_closure, wrapper_head, wrapper_tail, is_bound,
  snapshot_capture, snapshot_uses, snapshot_captures, resolve_user_closure,
  px_resolve_inline_closure, px_resolve_callable,
}
use php_parallax.Bridge.Callable.Forms.{IsMethodText, px_resolve_callable-text}
use php_parallax.Scanner.Extract.Depth.{SmallFiles}
use php_parallax.Bridge.Callable.Recipes.{IsCallable, IsUses, HasUses, px_resolve_callable-Yields}
use php_parallax.Bridge.Callable.Closures.{Portable, px_resolve_inline_closure-Portable}
use php_parallax.Examples.Machine.{
  knot_heap, knot_heap-IsHeap, closure_object, closure_heap, closure_heap-IsHeap, engine,
  engine-ArrayLaws, engine-Constructible, blank_world,
}

-- `[5]`
abbrev five : Zval
five = Zval.array (entry (int_key (pos 0)) (Zval.long (pos 5)) end)

px_zval_to_value-Yields_example :
    Yields (λ v. IsValue v × (depth v ≤ 257)) (px_zval_to_value knot_heap five)
px_zval_to_value-Yields_example =
    px_zval_to_value-Yields knot_heap five knot_heap-IsHeap
      ((omega arith, omega arith, tt), omega arith)

-- The object is its own child, behind a reference.
knot-Child : (x : Zval) → x ≡ Zval.object 0 → (y : Zval) × Child knot_heap x y × (y ≡ Zval.object 0)
knot-Child x e = (
  Zval.object 0,
  subst (λ z. Child knot_heap z (Zval.object 0)) (sym e)
      (property 0 (record { name = 112 ∷ []; is_static = false; offset = 0 }) (Zval.object 0)
        (first _ [] refl) refl refl refl),
  refl,
)

px_zval_to_value_endless_example :
    (t : Thrown) × (px_zval_to_value knot_heap (Zval.object 0) ≡ thrown t)
px_zval_to_value_endless_example =
    px_zval_to_value_endless knot_heap (λ z. z ≡ Zval.object 0) (Zval.object 0) knot-Child
      knot_heap-IsHeap tt refl

px_value_to_zval-px_zval_to_value_example :
    (v : Value) × (px_zval_to_value knot_heap five ≡ ok v)
    × ((w : engine.World) → px_value_to_zval engine w v ≡ (w, plainly five))
px_value_to_zval-px_zval_to_value_example =
    px_value_to_zval-px_zval_to_value engine knot_heap five engine-ArrayLaws (tt, tt, tt, tt)
      (omega arith)

-- An object of class `A` with an error under `p`.
abbrev object_value : Value
object_value = obj (65 ∷ []) (item (str_key (112 ∷ [])) (err none none (pos 0) none) nil) 1

px_value_to_zval-Sound_example :
    Sound (λ z. Unit {0}) (px_value_to_zval engine blank_world object_value)
px_value_to_zval-Sound_example = px_value_to_zval-Sound engine blank_world object_value (
  λ w found h. engine-Constructible (class_or_standard engine found),
  (engine-Constructible engine.worker_error_class, tt),
)

-- `static function(){}`
abbrev closure_text : Bytes
closure_text =
    115 ∷ 116 ∷ 97 ∷ 116 ∷ 105 ∷ 99 ∷ 32 ∷ 102 ∷ 117 ∷ 110 ∷ 99 ∷ 116 ∷ 105 ∷ 111 ∷ 110 ∷ 40 ∷ 41
    ∷ 123 ∷ 125 ∷ []

-- The same behind a space, and with `;` behind it.
abbrev one_line : Bytes
one_line = 32 ∷ (closure_text ++ (59 ∷ []))

abbrev one_file : Bytes → Option Bytes
one_file name = some one_line

cut : extract_closure_text one_file (some (102 ∷ [])) (pos 1) ≡ found closure_text
unfolding extract_closure_text no_source contains starts closure_span offset_of_line line_loop
    scan_find_keyword find_loop at_token is_ident_byte scan_round open_loop paren_round
    scan_brace_match brace_loop is_i32 walk_left back_over_blanks static_ends_at
cut = refl

-- A `static` at the start of the line is left out.
cut_at_start :
    extract_closure_text (λ name. some closure_text) (some (102 ∷ [])) (pos 1)
    ≡ found (drop 7 closure_text)
unfolding extract_closure_text no_source contains starts closure_span offset_of_line line_loop
    scan_find_keyword find_loop at_token is_ident_byte scan_round open_loop paren_round
    scan_brace_match brace_loop is_i32 walk_left back_over_blanks static_ends_at
cut_at_start = refl

-- The file, of 21 bytes.
abbrev one_stream : Stream
one_stream = record { seeks = true; tell = pos 21; read = λ n. take n one_line }

abbrev one_fopen : Bytes → Option Stream
one_fopen name = some one_stream

cut_from_stream :
    extract_closure_text (read_file_all one_fopen) (some (102 ∷ [])) (pos 1) ≡ found closure_text
unfolding extract_closure_text no_source contains starts closure_span offset_of_line line_loop
    scan_find_keyword find_loop at_token is_ident_byte scan_round open_loop paren_round
    scan_brace_match brace_loop is_i32 walk_left back_over_blanks static_ends_at read_file_all
    read_stream read_whole
cut_from_stream = refl

extract_closure_text-read_file_all_example :
    (f : Stream) × (one_fopen (102 ∷ []) ≡ some f)
    × (src : Bytes) × IsWhole f src
    × (line_off : ℕ) × (offset_of_line src (pos 1) ≡ some line_off)
    × ClosureText src closure_text line_off
extract_closure_text-read_file_all_example =
    extract_closure_text-read_file_all one_fopen (102 ∷ []) (pos 1) closure_text cut_from_stream

-- `A::m`
px_resolve_callable-text_example :
    ((cls : Bytes) × (name : Bytes) × IsMethodText (65 ∷ 58 ∷ 58 ∷ 109 ∷ []) cls name
      × (px_resolve_callable one_file knot_heap (Zval.string (65 ∷ 58 ∷ 58 ∷ 109 ∷ []))
          ≡ ok (of_method cls name)))
    ⊎ (((cls name : Bytes) → ¬ IsMethodText (65 ∷ 58 ∷ 58 ∷ 109 ∷ []) cls name)
        × (px_resolve_callable one_file knot_heap (Zval.string (65 ∷ 58 ∷ 58 ∷ 109 ∷ []))
            ≡ ok (of_function (65 ∷ 58 ∷ 58 ∷ 109 ∷ []))))
px_resolve_callable-text_example =
    px_resolve_callable-text one_file knot_heap (65 ∷ 58 ∷ 58 ∷ 109 ∷ [])

-- An inline closure with the variable `p`, which is 5.
abbrev inline_p : Function
inline_p = record {
  fake = false;
  user = true;
  name = [];
  scope = none;
  filename = some (102 ∷ []);
  line_start = pos 1;
  static_variables = some (entry (str_key (112 ∷ [])) (Zval.long (pos 5)) end);
}

of_some : (f g : Function) → some f ≡ some g → f ≡ g
of_some f g h = cc

inline_p-HasUses : HasUses (closure_heap inline_p)
inline_p-HasUses id fn target =
    subst (λ f. IsUses f) (of_some inline_p fn target)
      (((omega arith, tt), omega arith, tt), omega arith)

one_file-SmallFiles : SmallFiles one_file
one_file-SmallFiles filename src h =
    let same : one_line ≡ src = cc in subst (λ (s : Bytes). length s < 2 ^ 31) same (omega arith)

px_resolve_callable-Yields_example :
    Yields IsCallable (px_resolve_callable one_file (closure_heap inline_p) (Zval.object 0))
px_resolve_callable-Yields_example =
    px_resolve_callable-Yields (closure_heap inline_p) (closure_heap-IsHeap inline_p) one_file
      one_file-SmallFiles inline_p-HasUses (Zval.object 0)

abbrev recipe_p : Callable
recipe_p =
    of_closure (wrapper_head ++ (closure_text ++ wrapper_tail))
      (arr (item (str_key (112 ∷ [])) (long (pos 5)) nil) 4)

resolved :
    px_resolve_inline_closure one_file
      (closure_heap inline_p)
      (closure_object inline_p)
      (some inline_p)
    ≡ ok recipe_p
unfolding px_resolve_inline_closure resolve_user_closure snapshot_captures snapshot_uses
    snapshot_capture until_nul px_zval_to_value zval_to_value_inner value_arr_set_str append_kv grow
resolved = rw cut refl

px_resolve_inline_closure-Portable_example :
    (inline_p.user ≡ true)
    × (is_bound none ≡ false)
    × Portable one_file (closure_heap inline_p) inline_p recipe_p
px_resolve_inline_closure-Portable_example =
    px_resolve_inline_closure-Portable one_file (closure_heap inline_p) (closure_object inline_p)
      inline_p recipe_p resolved

walk_left_ends_example : walks_on one_line 0 (walk_left 8 one_line 0 8) ≡ false
walk_left_ends_example = walk_left_ends 8 one_line 0 8 (omega arith)
