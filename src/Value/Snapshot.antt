-- ===== src/Value/Snapshot.antt =====
-- The abstract view of a value: what it says to PHP, without pointers and capacities.
use php_parallax.Prelude.{ℕ, Bool, false, [], ◌∷◌, ◌≡◌, refl, ap, none, some, ◌==◌, arith}
use php_parallax.Prelude.Int.{ℤ}
use php_parallax.Value.Types.{Bytes, CStr, Key, Value, Items}
use php_parallax.Value.Build.{until_nul}
use php_parallax.Value.Wellformed.{IsText}

mutual
  pub data Snapshot : Type 0 where
    null : Snapshot
    bool : Bool → Snapshot
    long : ℤ → Snapshot
    double : ℕ → Snapshot
    str : Bytes → Snapshot
    arr : Entries → Snapshot
    obj : Bytes → Entries → Snapshot
    err : Bytes → Bytes → ℤ → Bytes → Snapshot

  -- Keys with their values, in order.
  pub data Entries : Type 0 where
    nil : Entries
    entry : Key → Snapshot → Entries → Entries

-- A NULL text reads as the empty text.
abbrev pub text : CStr → Bytes
text none = []
text (some s) = s

unfoldable mutual
  pub snapshot : Value → Snapshot
  snapshot Value.absent = null
  snapshot Value.null = null
  snapshot (Value.bool b) = bool b
  snapshot (Value.long i) = long i
  snapshot (Value.double d) = double d
  snapshot (Value.str p) = str p
  snapshot (Value.arr xs cap) = arr (entries xs)
  snapshot (Value.obj cls props cap) = obj cls (entries props)
  snapshot (Value.err cls msg code trace) = err (text cls) (text msg) code (text trace)

  pub entries : Items → Entries
  entries Items.nil = nil
  entries (Items.item k v xs) = entry k (snapshot v) (entries xs)

-- Texts with no NUL are kept whole by `dup_cstr`.
pub until_nul-IsText : (s : Bytes) → IsText (some s) → until_nul s ≡ s
unfolding until_nul
until_nul-IsText [] h = refl
until_nul-IsText (c ∷ cs) h =
    let more : (c == 0) ≡ false = ground arith in
    rw more (ap (λ t. c ∷ t) (until_nul-IsText cs h.1))

pub until_nul-text : (s : CStr) → IsText s → until_nul (text s) ≡ text s
until_nul-text none h = unfold until_nul in refl
until_nul-text (some s) h = until_nul-IsText s h
