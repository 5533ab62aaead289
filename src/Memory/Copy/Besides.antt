-- ===== src/Memory/Copy/Besides.antt =====
-- A loop that fills one array, and allocates what its entries own.
use php_parallax.Prelude.{
  ℕ, ◌≡◌, refl, sym, ◌∙◌, Bool, true, false, ◌||◌, ◌==◌, none, some, ◌<◌, ltb, arith, Bool-cases,
  inl, inr,
}
use php_parallax.Memory.Store.{Ptr, Kv, Block, kvs, Heap, ok, Region, nowhere, single, ◌∪◌, write}
use php_parallax.Memory.Regions.{test_flip, ==-refl}
use php_parallax.Memory.Owns.{Apart, Agree}
use php_parallax.Memory.Make.{update_kv, store_kv, store_kv_in}
use php_parallax.Memory.Extends.{
  Extends, Live, write-here, write-other, eq_of_test, ne_of_values, union_new, union_same,
  off_of_fresh,
}

-- The region is new, and every other block but the array is as before.
pub record Besides (h : Heap) (p : Ptr) (f : Region) (g : Heap) : Type 0 where
  pub unused : (a : Ptr) → f a ≡ true → h a ≡ none
  pub same : (a : Ptr) → (p == a) ≡ false → f a ≡ false → g a ≡ h a

pub Besides-refl : (h : Heap) (p : Ptr) → Besides h p nowhere h
unfolding nowhere
Besides-refl h p = record { unused = λ a m. absurd (cc m); same = λ a n m. refl }

none_of_write : (p a : Ptr) (b : Block) (h : Heap) → write p b h a ≡ none → h a ≡ none
none_of_write p a b h e = elim (Bool-cases (p == a)) [
  | inl m ↦
      let here : write p b h a ≡ some b = rw (← eq_of_test p a m) (write-here p b h) in
      absurd (let no : some b ≡ none = sym here ∙ e in cc)
  | inr m ↦ sym (write-other p a b h m) ∙ e
]

-- Allocations, a write to the array, and the rest.
pub Besides-step :
    {h g k : Heap} {p : Ptr} (b : Block) (f e : Region)
    → Extends h f g
    → Besides (write p b g) p e k
    → Besides h p (f ∪ e) k
unfolding ◌∪◌
Besides-step {h} {g} {k} {p} b f e u v = record {
  unused = λ a.
      union_new (f a) (e a) (h a) (g a) (u.unused a) (λ m. none_of_write p a b g (v.unused a m))
        (u.same a);
  same = λ a n.
      union_same (f a) (e a) (h a) (g a) (k a) (u.same a)
        (λ m. v.same a n m ∙ write-other p a b g n);
}

-- The array and what its entries own are new.
pub Besides-Extends :
    {h g : Heap} {p : Ptr} (b : Block) (f : Region)
    → h p ≡ none
    → Besides (write p b h) p f g
    → Extends h (f ∪ single p) g
unfolding ◌∪◌ single
Besides-Extends {h} {g} {p} b f new v = record {
  unused = λ a.
      either (f a) (p == a) (λ m. none_of_write p a b h (v.unused a m))
        (λ m. rw (← eq_of_test p a m) new);
  same = λ a m. neither (f a) (p == a) m (λ x y. v.same a y x ∙ write-other p a b h y);
}
  where
    either : (x y : Bool) {T : Type 0} → (x ≡ true → T) → (y ≡ true → T) → (x || y) ≡ true → T
    either true y l r m = l refl
    either false y l r m = r m

    neither : (x y : Bool) {T : Type 0} → (x || y) ≡ false → (x ≡ false → y ≡ false → T) → T
    neither true y m k = absurd (cc m)
    neither false y m k = k refl m

module _ {h g : Heap} {p : Ptr} {f s : Region} (u : Besides h p f g) (l : Live s h) where
  pub Besides-Apart : Apart s f
  Besides-Apart = record { off = λ a m. off_of_fresh (f a) (u.unused a) (l.used a m) }

  pub Besides-Agree : s p ≡ false → Agree s h g
  Besides-Agree off = record {
    same = λ a m. u.same a (test_flip a p (ne_of_values s a p m off)) (Besides-Apart.off a m);
  }

-- A write outside a region.
pub Agree-write :
    {f : Region} (p : Ptr) (b : Block) (h : Heap) → f p ≡ false → Agree f h (write p b h)
Agree-write {f} p b h off = record {
  same = λ a m. write-other p a b h (test_flip a p (ne_of_values f a p m off));
}

pub Live-write :
    {f : Region} (p : Ptr) (b : Block) (h : Heap) → f p ≡ false → Live f h → Live f (write p b h)
Live-write {f} p b h off l =
    let w : Agree f h (write p b h) = Agree-write p b h off in
    record { used = λ a m. rw (w.same a m) (l.used a m) }

pub update_kv-here : (ks : ℕ → Kv) (i : ℕ) (kv : Kv) → update_kv ks i kv i ≡ kv
unfolding update_kv
update_kv-here ks i kv = rw (==-refl i)

pub update_kv-below : (ks : ℕ → Kv) (i j : ℕ) (kv : Kv) → j < i → update_kv ks i kv j ≡ ks j
unfolding update_kv
update_kv-below ks i j kv h = let e : (i == j) ≡ false = ground arith in rw e

pub store_kv-live :
    (p : Ptr) (i c : ℕ) (ks : ℕ → Kv) (kv : Kv) (h : Heap)
    → h p ≡ some (kvs c ks)
    → i < c
    → store_kv p i kv h ≡ ok tt (write p (kvs c (update_kv ks i kv)) h)
unfolding store_kv store_kv_in
store_kv-live p i c ks kv h live small =
    rw live (let fits : ltb i c ≡ true = ground arith in rw fits)
