-- ===== src/Memory/Copy/Lifetimes.antt =====
-- A clone and its source are released apart from one another.
use php_parallax.Prelude.{
  ℕ, suc, max, ◌≡◌, refl, sym, ap, ap₂, ◌∙◌, true, false, none, Option, arith, ◌≤◌, Bool-cases, inl,
  inr,
}
use mathlib.Core.Path.{fun_ext}
use php_parallax.Value.{
  Value, Items, absent, null, bool, long, double, str, arr, obj, err, nil, item, value_err,
}
use php_parallax.Clone.{value_clone, clone_kv_block}
use php_parallax.Bridge.Capture.Wellformed.{depth, depth_items}
use php_parallax.Memory.Store.{Ptr, Heap, ret, ◌>>=◌, ◌>>◌, Region, remove}
use php_parallax.Memory.Owns.{Owns}
use php_parallax.Memory.Frame.{Owns-frame}
use php_parallax.Memory.Release.{value_free}
use php_parallax.Memory.Release.Remove.{Agree-remove, Apart-sym}
use php_parallax.Memory.Release.Exact.{value_free-Owns}
use php_parallax.Memory.Copy
use php_parallax.Memory.Extends.{
  IsMalloc, Ends, ends, Ends-after, Extends, Live-Agree, Live-Apart, Live,
}
use php_parallax.Memory.Living.{Owns-Live}
use php_parallax.Memory.Copy.Trees.{value_clone-Makes}

mutual
  unfolding value_clone value_err

  depth-value_clone : (v : Value) → depth (value_clone v) ≡ depth v
  depth-value_clone absent = refl
  depth-value_clone null = refl
  depth-value_clone (bool b) = refl
  depth-value_clone (long i) = refl
  depth-value_clone (double d) = refl
  depth-value_clone (str p) = refl
  depth-value_clone (arr xs c) = ap suc (depth_items-clone_kv_block xs)
  depth-value_clone (obj cls xs c) = ap suc (depth_items-clone_kv_block xs)
  depth-value_clone (err cls msg code trace) = refl

  depth_items-clone_kv_block : (xs : Items) → depth_items (clone_kv_block xs) ≡ depth_items xs
  depth_items-clone_kv_block nil = refl
  depth_items-clone_kv_block (item k v xs) =
      ap₂ max (depth-value_clone v) (depth_items-clone_kv_block xs)

remove-same : (f : Region) (h : Heap) (a : Ptr) → f a ≡ false → remove f h a ≡ h a
unfolding remove
remove-same f h a e = rw e

remove-gone : (f : Region) (h : Heap) (a : Ptr) → f a ≡ true → remove f h a ≡ none
unfolding remove
remove-gone f h a e = rw e

-- What was allocated and is released leaves nothing.
remove-Extends : {h g : Heap} (f : Region) → Extends h f g → remove f g ≡ h
remove-Extends {h} {g} f u = fun_ext (λ a. elim (Bool-cases (f a)) [
  | inl e ↦ remove-gone f g a e ∙ sym (u.unused a e)
  | inr e ↦ remove-same f g a e ∙ u.same a e
])

-- The same allocation, seen from the store without a region that was live.
Extends-remove :
    {h g : Heap} (f s : Region) → Extends h f g → Live s h → Extends (remove s h) f (remove s g)
Extends-remove {h} {g} f s u l = record {
  unused = λ a m. remove-same s h a ((Apart-sym (Live-Apart u l)).off a m) ∙ u.unused a m;
  same = λ a m. elim (Bool-cases (s a)) [
    | inl e ↦ remove-gone s g a e ∙ sym (remove-gone s h a e)
    | inr e ↦ remove-same s g a e ∙ (u.same a m ∙ sym (remove-same s h a e))
  ];
}

module _ (malloc : Heap → Option Ptr) (law : IsMalloc malloc) where
  -- Where malloc gives NULL or an address that is not NULL and not in use, a pointer represents a
  -- value, and the fuel is at least the levels of the value: to clone it and then release the
  -- source aborts, or leaves a clone that represents the clone of the value, made of blocks that
  -- were not in use before, in the store without the source and otherwise as it was.
  pub clone_outlives :
      (k : ℕ) (p : Ptr) (v : Value) (s : Region) (h : Heap)
      → depth v ≤ k
      → Owns h p v s
      → Ends
          (λ q g. (f : Region) × Extends (remove s h) f g × Owns g q (value_clone v) f)
          ((do q ← Copy.value_clone malloc k p; value_free k p; ret q) h)
  clone_outlives k p v s h deep o =
      let l = Owns-Live p v s h o in
      Ends-after (value_clone-Makes malloc law k p v s h deep o) (λ q g (f, u, made).
        rw (value_free-Owns k p v s g deep (Owns-frame p v s (Live-Agree u l) o)) (
          ends (
            f,
            Extends-remove f s u l,
            Owns-frame q (value_clone v) f (Agree-remove (Live-Apart u l) g) made,
          )))

  -- Where malloc gives NULL or an address that is not NULL and not in use, a pointer represents a
  -- value, and the fuel is at least the levels of the value, to clone it and then release the clone
  -- aborts, or leaves the store that was there before.
  pub clone_released :
      (k : ℕ) (p : Ptr) (v : Value) (s : Region) (h : Heap)
      → depth v ≤ k
      → Owns h p v s
      → Ends (λ u g. g ≡ h) ((do q ← Copy.value_clone malloc k p; value_free k q) h)
  clone_released k p v s h deep o =
      Ends-after (value_clone-Makes malloc law k p v s h deep o) (λ q g (f, u, made).
        rw
          (value_free-Owns k q (value_clone v) f g (let same = depth-value_clone v in omega arith)
            made)
          (ends (remove-Extends f u)))
