-- ===== src/Memory/Build/Moves.antt =====
-- A call that changes which blocks a tree owns.
use php_parallax.Prelude.{◌≡◌, ◌≢◌, refl, sym, ◌∙◌, Bool, true, false, ◌||◌, Option, none, arith}
use php_parallax.Memory.Store.{Ptr, Block, Heap, Region, single, ◌∪◌, remove, write}
use php_parallax.Memory.Owns.{Apart, Agree}
use php_parallax.Memory.Extends.{Extends, Live}

-- `s` is owned before and `f` after: what is new was not in use, what is owned no more is released,
-- and every other block is as before.
pub record Trades (h : Heap) (s f : Region) (g : Heap) : Type 0 where
  pub taken : (a : Ptr) → s a ≡ false → f a ≡ true → h a ≡ none
  pub gone : (a : Ptr) → s a ≡ true → f a ≡ false → g a ≡ none
  pub kept : (a : Ptr) → s a ≡ false → f a ≡ false → g a ≡ h a

pub Trades-refl : (h : Heap) (s : Region) → Trades h s s h
Trades-refl h s = record {
  taken = λ a e m. absurd (let no : true ≡ false = sym m ∙ e in cc);
  gone = λ a m e. absurd (let no : true ≡ false = sym m ∙ e in cc);
  kept = λ a e e'. refl;
}

-- A block that moves.
pub Trades-move :
    (h : Heap) (e : Region) (t q : Ptr) (b : Block)
    → remove (single t) h q ≡ none
    → Trades h (e ∪ single t) (e ∪ single q) (write q b (remove (single t) h))
unfolding ◌∪◌ single remove write
Trades-move h e t q b new = record {
  taken = λ a out m. ground (arith, new);
  gone = λ a m out. ground (arith);
  kept = λ a out out'. ground (arith);
}

ne_or : (a b : Bool) → a ≡ false → b ≡ false → (a || b) ≡ false
ne_or a b e e' = rw (e, e')

-- What is in use and not owned before is not owned after, and stays.
module _ {h g : Heap} {s f x : Region} (u : Trades h s f g) (sep : Apart x s) (l : Live x h) where
  pub Trades-Apart : Apart x f
  Trades-Apart = record {
    off = λ a m. not_taken (f a) (λ e. u.taken a (sep.off a m) e) (l.used a m);
  }
    where
      not_taken : (b : Bool) {o : Option Block} → (b ≡ true → o ≡ none) → o ≢ none → b ≡ false
      not_taken true k used = absurd (used (k refl))
      not_taken false k used = refl

  pub Trades-Agree : Agree x h g
  Trades-Agree = record { same = λ a m. u.kept a (sep.off a m) (Trades-Apart.off a m) }

-- The array of `p` moves to `q`, its root is written, a key is allocated, and an entry is written
-- that owns the key and the child.
pub Trades-append :
    {h g g2 : Heap} (d e k y : Region) (p q : Ptr) (root array : Block)
    → Trades h d (e ∪ single q) g
    → Extends (write p root g) k g2
    → Trades h ((d ∪ single p) ∪ y) (((e ∪ (k ∪ y)) ∪ single q) ∪ single p) (write q array g2)
unfolding ◌∪◌ single write
Trades-append {h} {g} {g2} d e k y p q root array t u = record {
  taken = λ a out m. ground (arith, t.taken a, t.kept a, u.unused a);
  gone = λ a m out. ground (arith, t.gone a, u.same a);
  kept = λ a out out'. ground (arith, t.kept a, u.same a);
}
