-- ===== src/Memory/Extends.antt =====
-- A call that allocates: it aborts, or it returns and leaves every block that was there.
use php_parallax.Prelude.{
  ◌≡◌, ◌≢◌, refl, sym, ◌∙◌, Bool, true, false, ◌||◌, Option, none, some, ◌==◌, arith, Bool-cases,
  inl, inr,
}
use php_parallax.Memory.Store.{
  Ptr, Block, Heap, Run, Cmd, ok, aborted, after, Region, nowhere, single, ◌∪◌, write,
}
use php_parallax.Memory.Regions.{or_left, or_right}
use php_parallax.Memory.Owns.{Apart, Agree}
use php_parallax.Memory.Make.{alloc, fill}

-- What malloc promises: an address that is not NULL and not in use.
abbrev pub IsMalloc : (Heap → Option Ptr) → Type 0
IsMalloc malloc = (h : Heap) (p : Ptr) → malloc h ≡ some p → (p ≢ 0) × (h p ≡ none)

-- The call returns and `P` holds of the result and the store, or it aborts for want of memory.
pub data Ends {A : Type 0} (P : A → Heap → Type 0) : Run A → Type 0 where
  ends : {a : A} {g : Heap} → P a g → Ends P (ok a g)
  gave_up : Ends P aborted

-- The region is new: none of it was in use, and every other block is as before.
pub record Extends (h : Heap) (f : Region) (g : Heap) : Type 0 where
  pub unused : (a : Ptr) → f a ≡ true → h a ≡ none
  pub same : (a : Ptr) → f a ≡ false → g a ≡ h a

-- The call leaves new blocks, and `P` says which of them its result owns, and how.
abbrev pub Gives : {A : Type 0} → (Heap → A → Region → Type 0) → Heap → A → Heap → Type 0
Gives P h a g = (f : Region) × Extends h f g × P g a f

module _ {A B : Type 0} {P : A → Heap → Type 0} {Q : B → Heap → Type 0} where
  pub Ends-after :
      {r : Run A} {k : A → Cmd B}
      → Ends P r
      → ((a : A) (g : Heap) → P a g → Ends Q (k a g))
      → Ends Q (after r k)
  Ends-after (ends {a} {g} o) next = next a g o
  Ends-after gave_up next = gave_up

pub Ends-map :
    {A : Type 0} {P Q : A → Heap → Type 0} {r : Run A}
    → Ends P r
    → ((a : A) (g : Heap) → P a g → Q a g)
    → Ends Q r
Ends-map (ends {a} {g} o) k = ends (k a g o)
Ends-map gave_up k = gave_up

-- Every address of the region is in use.
pub record Live (f : Region) (h : Heap) : Type 0 where
  pub used : (a : Ptr) → f a ≡ true → h a ≢ none

pub Extends-refl : (h : Heap) → Extends h nowhere h
unfolding nowhere
Extends-refl h = record { unused = λ a m. absurd (cc m); same = λ a m. refl }

pub union_new :
    {A : Type 0} (a b : Bool) (x y : Option A)
    → (a ≡ true → x ≡ none)
    → (b ≡ true → y ≡ none)
    → (a ≡ false → y ≡ x)
    → (a || b) ≡ true
    → x ≡ none
union_new true b x y fa fb s m = fa refl
union_new false b x y fa fb s m = sym (s refl) ∙ fb m

pub union_same :
    {A : Type 0} (a b : Bool) (x y z : Option A)
    → (a ≡ false → y ≡ x)
    → (b ≡ false → z ≡ y)
    → (a || b) ≡ false
    → z ≡ x
union_same true b x y z sa sb m = absurd (cc m)
union_same false b x y z sa sb m = sb m ∙ sa refl

pub Extends-trans :
    {h g k : Heap} (f e : Region) → Extends h f g → Extends g e k → Extends h (f ∪ e) k
unfolding ◌∪◌
Extends-trans {h} {g} {k} f e u v = record {
  unused = λ a. union_new (f a) (e a) (h a) (g a) (u.unused a) (v.unused a) (u.same a);
  same = λ a. union_same (f a) (e a) (h a) (g a) (k a) (u.same a) (v.same a);
}

pub eq_of_test : (p a : Ptr) → (p == a) ≡ true → p ≡ a
eq_of_test p a m = ground arith

pub write-here : (p : Ptr) (b : Block) (h : Heap) → write p b h p ≡ some b
unfolding write
write-here p b h = let e : (p == p) ≡ true = ground arith in rw e

pub write-other : (p a : Ptr) (b : Block) (h : Heap) → (p == a) ≡ false → write p b h a ≡ h a
unfolding write
write-other p a b h e = rw e

pub Extends-new : {h : Heap} (p : Ptr) (b : Block) → h p ≡ none → Extends h (single p) (write p b h)
unfolding single
Extends-new {h} p b e = record {
  unused = λ a m. rw (← eq_of_test p a m) e;
  same = λ a m. write-other p a b h m;
}

pub ne_of_values : (f : Region) (p a : Ptr) → f p ≡ true → f a ≡ false → (p == a) ≡ false
ne_of_values f p a m off = elim (Bool-cases (p == a)) [
  | inl e ↦ let e' = eq_of_test p a e in cc
  | inr e ↦ e
]

-- A write to a block of the region itself.
pub Extends-write :
    {h g : Heap} (f : Region) (p : Ptr) (b : Block)
    → Extends h f g
    → f p ≡ true
    → Extends h f (write p b g)
Extends-write {h} {g} f p b u m = record {
  unused = u.unused;
  same = λ a off. write-other p a b g (ne_of_values f p a m off) ∙ u.same a off;
}

pub off_of_fresh : (b : Bool) {x : Option Block} → (b ≡ true → x ≡ none) → x ≢ none → b ≡ false
off_of_fresh true k used = absurd (used (k refl))
off_of_fresh false k used = refl

module _ {h g : Heap} {f s : Region} (u : Extends h f g) (l : Live s h) where
  pub Live-Apart : Apart s f
  Live-Apart = record { off = λ a m. off_of_fresh (f a) (u.unused a) (l.used a m) }

  -- What was live is as it was.
  pub Live-Agree : Agree s h g
  Live-Agree = record { same = λ a m. u.same a (Live-Apart.off a m) }

  pub Live-Extends : Live s g
  Live-Extends = record { used = λ a m. rw (Live-Agree.same a m) (l.used a m) }

module _ (f g : Region) {h : Heap} (l : Live (f ∪ g) h) where
  pub Live-left : Live f h
  unfolding ◌∪◌
  Live-left = record { used = λ a m. l.used a (or_left (f a) (g a) m) }

  pub Live-right : Live g h
  unfolding ◌∪◌
  Live-right = record { used = λ a m. l.used a (or_right (f a) (g a) m) }

fill-Ends :
    (malloc : Heap → Option Ptr) (content : Cmd Block) (b : Block) (h : Heap) (o : Option Ptr)
    → content h ≡ ok b h
    → ((p : Ptr) → o ≡ some p → (p ≢ 0) × (h p ≡ none))
    → Ends (λ p g. (p ≢ 0) × (h p ≡ none) × (g ≡ write p b h)) (fill malloc o content h)
unfolding fill
fill-Ends malloc content b h none e k = gave_up
fill-Ends malloc content b h (some p) e k = rw e (ends ((k p refl).0, (k p refl).1, refl))

-- An allocation: a new block with the content that is read.
pub alloc-Ends :
    (malloc : Heap → Option Ptr)
    → IsMalloc malloc
    → (content : Cmd Block) (b : Block) (h : Heap) → content h ≡ ok b h
    → Ends (λ p g. (p ≢ 0) × (h p ≡ none) × (g ≡ write p b h)) (alloc malloc content h)
unfolding alloc
alloc-Ends malloc law content b h e = fill-Ends malloc content b h (malloc h) e (law h)
