-- ===== src/Value/Wellformed.antt =====
-- What the builders of value/value.c guarantee of a value.
use php_parallax.Prelude.{ℕ, ◌^◌, ◌≤◌, ◌<◌, none, some, All}
use php_parallax.Prelude.Int.{IsI64}
use php_parallax.Value.Types.{
  Bytes, CStr, Key, int_key, str_key, Value, Items, absent, null, bool, long, double, str, arr, obj,
  err, nil, item, count, snoc,
}

abbrev pub IsByte : ℕ → Type 0
IsByte b = b < 256

-- A byte that does not end a NUL-terminated string.
abbrev pub IsChar : ℕ → Type 0
IsChar c = (0 < c) × (c < 256)

abbrev pub IsText : CStr → Type 0
IsText none = Unit {0}
IsText (some s) = All IsChar s

abbrev pub IsKey : Key → Type 0
IsKey (int_key i) = IsI64 i
IsKey (str_key s) = All IsByte s

-- The keys of an object's properties are strings.
abbrev pub IsStrKey : Key → Type 0
IsStrKey (int_key i) = ⊥
IsStrKey (str_key s) = All IsByte s

-- Integers, doubles and bytes are in range, texts hold no NUL, and `n` is within `cap`.
abbrev mutual
  pub IsValue : Value → Type 0
  IsValue absent = Unit {0}
  IsValue null = Unit {0}
  IsValue (bool b) = Unit {0}
  IsValue (long i) = IsI64 i
  IsValue (double d) = d < 2 ^ 64
  IsValue (str p) = All IsByte p
  IsValue (arr xs cap) = IsItems xs × (count xs ≤ cap)
  IsValue (obj cls props cap) = All IsByte cls × IsProperties props × (count props ≤ cap)
  IsValue (err cls msg code trace) = IsText cls × IsText msg × IsI64 code × IsText trace

  pub IsItems : Items → Type 0
  IsItems nil = Unit {0}
  IsItems (item k v xs) = IsKey k × IsValue v × IsItems xs

  pub IsProperties : Items → Type 0
  IsProperties nil = Unit {0}
  IsProperties (item k v xs) = IsStrKey k × IsValue v × IsProperties xs

-- A property table is an item table.
pub IsProperties→IsItems : (xs : Items) → IsProperties xs → IsItems xs
IsProperties→IsItems nil h = tt
IsProperties→IsItems (item (int_key i) v xs) h = absurd h.0
IsProperties→IsItems (item (str_key s) v xs) h = (h.0, h.1, IsProperties→IsItems xs h.2)

pub IsItems-snoc :
    (xs : Items) (k : Key) (v : Value) → IsItems xs → IsKey k → IsValue v → IsItems (snoc xs k v)
IsItems-snoc nil k v h hk hv = (hk, hv, tt)
IsItems-snoc (item j w xs) k v h hk hv = (h.0, h.1, IsItems-snoc xs k v h.2 hk hv)

pub IsProperties-snoc :
    (xs : Items) (s : Bytes) (v : Value)
    → IsProperties xs
    → All IsByte s
    → IsValue v
    → IsProperties (snoc xs (str_key s) v)
IsProperties-snoc nil s v h hk hv = (hk, hv, tt)
IsProperties-snoc (item j w xs) s v h hk hv = (h.0, h.1, IsProperties-snoc xs s v h.2 hk hv)
