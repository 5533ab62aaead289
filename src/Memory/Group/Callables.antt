-- ===== src/Memory/Group/Callables.antt =====
-- `px_callable_free` releases what a callable owns and forgets it, so that a second call is harmless.
use php_parallax.Prelude.{
  ℕ, suc, ◌≡◌, ◌≢◌, refl, ◌∙◌, ap, Option, Bool, true, false, some, ◌≤◌, ◌==◌, if◌then◌else◌,
}
use mathlib.Core.Path.{fun_ext}
use php_parallax.Bridge.Capture.Wellformed.{depth}
use php_parallax.Bridge.Callable.{Callable}
use php_parallax.Value.{CStr, Value}
use php_parallax.Memory.Store.{
  Ptr, CallableNode, callable, Block, Heap, ok, Region, ◌∪◌, remove, write, free,
}
use php_parallax.Memory.Owns.{Apart, Owns, Text}
use php_parallax.Memory.Frame.{Owns-frame, Text-frame}
use php_parallax.Memory.Release.{value_free}
use php_parallax.Memory.Release.Remove.{==-zero, remove-remove, remove-outside, Agree-remove}
use php_parallax.Memory.Release.Exact.{value_free-Owns, free-Text}
use php_parallax.Memory.Extends.{write-here}
use php_parallax.Memory.Group.{
  load_callable, callable_in, update_callable, callable_over, forgotten, px_callable_free,
}

-- The callable at `p` owns its four texts and its captures, and does not own its own block.
abbrev pub OwnsCallable : Heap → Ptr → Callable → Region → Type 0
OwnsCallable h p c f =
    (z : CallableNode) × (t1 t2 t3 t4 v : Region) × (p ≢ 0)
    × (h p ≡ some (callable z))
    × Text h z.class_name c.class_name t1
    × Text h z.fn_name c.fn_name t2
    × Text h z.bootstrap c.bootstrap t3
    × Text h z.closure_wrapper c.closure_wrapper t4
    × Owns h z.closure_captures c.closure_captures v
    × Apart t1 t2
    × Apart (t1 ∪ t2) t3
    × Apart ((t1 ∪ t2) ∪ t3) t4
    × Apart (((t1 ∪ t2) ∪ t3) ∪ t4) v
    × (f ≡ (((t1 ∪ t2) ∪ t3) ∪ t4) ∪ v)
    × (f p ≡ false)

load_callable-live :
    (p : Ptr) (z : CallableNode) (h : Heap) → h p ≡ some (callable z) → load_callable p h ≡ ok z h
unfolding load_callable callable_in
load_callable-live p z h live = rw live

update_callable-live :
    (p : Ptr) (z : CallableNode) (u : CallableNode → CallableNode) (h : Heap)
    → h p ≡ some (callable z)
    → update_callable p u h ≡ ok tt (write p (callable (u z)) h)
unfolding update_callable callable_over
update_callable-live p z u h live = rw live

-- The block of the callable, once its fields are released.
abbrev pub released : CallableNode → Ptr → Region → Heap → Heap
released z p f h = write p (callable (forgotten z)) (remove f h)

-- The next text, behind a region that is released.
next-Text :
    (q : Ptr) (s : CStr) (f e : Region) (h : Heap)
    → Apart f e
    → Text h q s e
    → free q (remove f h) ≡ ok tt (remove (f ∪ e) h)
next-Text q s f e h sep o =
    rw (← remove-remove f e h)
      (free-Text q s e (remove f h) (Text-frame q s e (Agree-remove sep h) o))

next-Owns :
    (k : ℕ) (q : Ptr) (v : Value) (f e : Region) (h : Heap)
    → depth v ≤ k
    → Apart f e
    → Owns h q v e
    → value_free k q (remove f h) ≡ ok tt (remove (f ∪ e) h)
next-Owns k q v f e h deep sep o =
    rw (← remove-remove f e h)
      (value_free-Owns k q v e (remove f h) deep (Owns-frame q v e (Agree-remove sep h) o))

release_fields :
    (k : ℕ) (p : Ptr) (c : Callable) (f : Region) (h : Heap)
    → depth c.closure_captures ≤ k
    → OwnsCallable h p c f
    → (z : CallableNode) × (h p ≡ some (callable z))
      × (px_callable_free k p h ≡ ok tt (released z p f h))
unfolding px_callable_free
release_fields k p c f h deep
      (z, t1, t2, t3, t4, v, set, live, o1, o2, o3, o4, ov, s2, s3, s4, sv, region, out) =
    let f2 = t1 ∪ t2 in
    let f3 = f2 ∪ t3 in
    let f4 = f3 ∪ t4 in
    let kept : remove (f4 ∪ v) h p ≡ some (callable z) =
      rw (← region) (remove-outside f h p out ∙ live) in
    (
      z,
      live,
      rw
          (
            ==-zero p set,
            load_callable-live p z h live,
            free-Text z.class_name c.class_name t1 h o1,
            next-Text z.fn_name c.fn_name t1 t2 h s2 o2,
            next-Text z.bootstrap c.bootstrap f2 t3 h s3 o3,
            next-Text z.closure_wrapper c.closure_wrapper f3 t4 h s4 o4,
            next-Owns k z.closure_captures c.closure_captures f4 v h deep sv ov,
            update_callable-live p z (λ d. forgotten d) (remove (f4 ∪ v) h) kept,
            region,
          )
          refl,
    )

write-write : (p : Ptr) (b : Block) (h : Heap) → write p b (write p b h) ≡ write p b h
unfolding write
write-write p b h = fun_ext (λ a. same (p == a) (h a))
  where
    same :
        (t : Bool) (o : Option Block)
        → (if t then some b else (if t then some b else o)) ≡ (if t then some b else o)
    same true o = refl
    same false o = refl

free_forgotten :
    (k : ℕ) (p : Ptr) (z : CallableNode) (h : Heap)
    → p ≢ 0
    → h p ≡ some (callable (forgotten z))
    → px_callable_free (suc k) p h ≡ ok tt (write p (callable (forgotten z)) h)
unfolding px_callable_free free value_free
free_forgotten k p z h set live =
    rw (==-zero p set, load_callable-live p (forgotten z) h live)
      (update_callable-live p (forgotten z) (λ d. forgotten d) h live)

-- Where a pointer represents a callable that owns its texts and its captures each once, and the
-- fuel is at least the levels of the captures and at least one, `px_callable_free` on it releases
-- what it owned and sets its five pointers to NULL; a second call returns and leaves the store as
-- it is.
pub px_callable_free_twice :
    (k : ℕ) (p : Ptr) (c : Callable) (f : Region) (h : Heap)
    → depth c.closure_captures ≤ suc k
    → OwnsCallable h p c f
    → (z : CallableNode) × (h p ≡ some (callable z))
      × (px_callable_free (suc k) p h ≡ ok tt (released z p f h))
      × (px_callable_free (suc k) p (released z p f h) ≡ ok tt (released z p f h))
px_callable_free_twice k p c f h deep o =
    let (z, live, first) = release_fields (suc k) p c f h deep o in
    let b = callable (forgotten z) in
    let again = free_forgotten k p z (released z p f h) o.6 (write-here p b (remove f h)) in
    (z, live, first, again ∙ ap (λ (g : Heap). ok tt g) (write-write p b (remove f h)))
