-- ===== src/Memory/Make/Roots.antt =====
-- A new `value_t`: allocated first, then its parts, and filled at the end.
use php_parallax.Prelude.{◌≡◌, ◌≢◌, refl, ◌∙◌, Bool, true, false, ◌||◌, Option, none, some, ◌==◌}
use mathlib.Core.Path.{fun_ext}
use php_parallax.Memory.Store.{
  Ptr, Node, node, Block, Heap, ok, ◌>>◌, ret, Region, nowhere, single, ◌∪◌, write,
}
use php_parallax.Memory.Regions.{test_flip, ==-refl, or_left, or_right}
use php_parallax.Memory.Owns.{Agree, Rooted}
use php_parallax.Memory.Make.{alloc_value, update_node, update_in}
use php_parallax.Memory.Extends.{
  IsMalloc, Ends, ends, Ends-map, Extends, Extends-new, Extends-trans, Extends-write, Gives,
  ne_of_values, write-here, write-other, alloc-Ends,
}

-- A block that is written at a new address.
pub Rooted-write :
    (p : Ptr) (b : Block) (h : Heap) → p ≢ 0 → Rooted (write p b h) p b nowhere (single p)
unfolding nowhere ◌∪◌
Rooted-write p b h set = record {
  set = set;
  live = write-here p b h;
  outside = refl;
  region = refl;
}

pub alloc_value-Gives :
    (malloc : Heap → Option Ptr)
    → IsMalloc malloc
    → (z : Node) (h : Heap)
    → Ends (Gives (λ g v f. Rooted g v (node z) nowhere f) h) (alloc_value malloc z h)
unfolding alloc_value
alloc_value-Gives malloc law z h =
    Ends-map (alloc-Ends malloc law (ret (node z)) (node z) h refl) (λ v g o.
      (single v, rw o.2 (Extends-new v (node z) o.1), rw o.2 (Rooted-write v (node z) h o.0)))

or_swap : (a b c : Bool) → ((a || b) || c) ≡ ((a || c) || b)
or_swap true b c = refl
or_swap false true true = refl
or_swap false true false = refl
or_swap false false true = refl
or_swap false false false = refl

∪-swap : (f g e : Region) → (f ∪ g) ∪ e ≡ (f ∪ e) ∪ g
unfolding ◌∪◌
∪-swap f g e = fun_ext (λ a. or_swap (f a) (g a) (e a))

in_single : (e : Region) (q : Ptr) → (e ∪ single q) q ≡ true
unfolding ◌∪◌ single
in_single e q = or_right (e q) (q == q) (==-refl q)

in_left : (f e : Region) (q : Ptr) → f q ≡ true → (f ∪ e) q ≡ true
unfolding ◌∪◌
in_left f e q m = or_left (f q) (e q) m

out_both : (e d : Region) (q : Ptr) → e q ≡ false → d q ≡ false → (e ∪ d) q ≡ false
unfolding ◌∪◌
out_both e d q a b = rw (a, b)

pub update_node-live :
    (q : Ptr) (z : Node) (u : Node → Node) (h : Heap)
    → h q ≡ some (node z)
    → update_node q u h ≡ ok tt (write q (node (u z)) h)
unfolding update_node update_in
update_node-live q z u h live = rw live

none_of_new :
    (b : Bool) {x : Option Block} {y : Block} → (b ≡ true → x ≡ none) → x ≡ some y → b ≡ false
none_of_new true k e = cc (k refl)
none_of_new false k e = refl

-- The root gets its parts: those that it had, and the new ones.
pub root-store :
    {h g k : Heap} {q : Ptr} {z : Node} {e f d : Region}
    → Extends h f g
    → Rooted g q (node z) e f
    → Extends g d k
    → (u : Node → Node)
    → Ends
        (Gives (λ m q' f'. Agree (e ∪ d) k m × Rooted m q' (node (u z)) (e ∪ d) f') h)
        ((update_node q u >> ret q) k)
root-store {h} {g} {k} {q} {z} {e} {f} {d} ext root new u =
    let off : d q ≡ false = none_of_new (d q) (new.unused q) root.live in
    let live : k q ≡ some (node z) = new.same q off ∙ root.live in
    let region : f ∪ d ≡ (e ∪ d) ∪ single q = rw root.region (∪-swap e (single q) d) in
    let inside : (f ∪ d) q ≡ true = rw region (in_single (e ∪ d) q) in
    let out : (e ∪ d) q ≡ false = out_both e d q root.outside off in
    rw (update_node-live q z u k live) (
      ends (
        f ∪ d,
        Extends-write (f ∪ d) q (node (u z)) (Extends-trans f d ext new) inside,
        (
          record {
            same = λ a m.
                write-other q a (node (u z)) k (test_flip a q (ne_of_values (e ∪ d) a q m out));
          },
          record {
            set = root.set;
            live = write-here q (node (u z)) k;
            outside = out;
            region = region;
          },
        ),
      ))

pub root-first :
    {h g k : Heap} {q : Ptr} {z : Node} {f d : Region}
    → Extends h f g
    → Rooted g q (node z) nowhere f
    → Extends g d k
    → (u : Node → Node)
    → Ends
        (Gives (λ m q' f'. Agree d k m × Rooted m q' (node (u z)) d f') h)
        ((update_node q u >> ret q) k)
unfolding ◌∪◌ nowhere
root-first ext root new u = root-store ext root new u
