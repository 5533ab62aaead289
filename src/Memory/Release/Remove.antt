-- ===== src/Memory/Release/Remove.antt =====
-- Releasing one region after another.
use php_parallax.Prelude.{
  ◌≡◌, ◌≢◌, refl, ◌∙◌, ap, Option, ◌==◌, Bool, true, false, ◌||◌, none, some, if◌then◌else◌, arith,
}
use mathlib.Core.Path.{fun_ext}
use php_parallax.Memory.Store.{
  Ptr, Block, Heap, ok, Region, nowhere, single, ◌∪◌, remove, free, free_at,
}
use php_parallax.Memory.Regions.{or_left, or_right}
use php_parallax.Memory.Owns.{Apart, Agree, Rooted}

pub remove-nowhere : (h : Heap) → remove nowhere h ≡ h
unfolding remove nowhere
remove-nowhere h = refl

if_or :
    {A : Type 0} (a b : Bool) (x y : A)
    → (if b then x else (if a then x else y)) ≡ (if a || b then x else y)
if_or true true x y = refl
if_or true false x y = refl
if_or false true x y = refl
if_or false false x y = refl

pub remove-remove : (f g : Region) (h : Heap) → remove g (remove f h) ≡ remove (f ∪ g) h
unfolding remove ◌∪◌
remove-remove f g h = fun_ext (λ a. if_or (f a) (g a) none (h a))

pub remove-outside : (f : Region) (h : Heap) (p : Ptr) → f p ≡ false → remove f h p ≡ h p
unfolding remove
remove-outside f h p e = rw e

true≢false : (b : Bool) → b ≡ true → b ≡ false → ⊥
true≢false b e e' = cc

flip_off : (a b : Bool) → (a ≡ true → b ≡ false) → b ≡ true → a ≡ false
flip_off true b k e = absurd (true≢false b e (k refl))
flip_off false b k e = refl

module _ {f g : Region} (sep : Apart f g) where
  pub Apart-sym : Apart g f
  Apart-sym = record { off = λ a. flip_off (f a) (g a) (sep.off a) }

  pub Agree-remove : (h : Heap) → Agree g h (remove f h)
  Agree-remove h = record { same = λ a m. remove-outside f h a (Apart-sym.off a m) }

module _ (f g : Region) {d : Region} (sep : Apart (f ∪ g) d) where
  pub Apart-left : Apart f d
  unfolding ◌∪◌
  Apart-left = record { off = λ a m. sep.off a (or_left (f a) (g a) m) }

  pub Apart-right : Apart g d
  unfolding ◌∪◌
  Apart-right = record { off = λ a m. sep.off a (or_right (f a) (g a) m) }

pub ==-zero : (p : Ptr) → p ≢ 0 → (p == 0) ≡ false
==-zero p set = ground arith

pub free-null : (h : Heap) → free 0 h ≡ ok tt h
unfolding free
free-null h = refl

free-live :
    (p : Ptr) (b : Block) (h : Heap) → p ≢ 0 → h p ≡ some b → free p h ≡ ok tt (remove (single p) h)
unfolding free free_at
free-live p b h set live = rw (==-zero p set) (ap (λ (c : Option Block). free_at p c h) live)

-- The release of a root behind its parts.
pub free-Rooted :
    {h : Heap} {p : Ptr} {b : Block} {g f : Region}
    → Rooted h p b g f
    → free p (remove g h) ≡ ok tt (remove f h)
free-Rooted {h} {p} {b} {g} r =
    rw (r.region, ← remove-remove g (single p) h)
      (free-live p b (remove g h) r.set (remove-outside g h p r.outside ∙ r.live))
