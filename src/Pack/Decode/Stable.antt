-- ===== src/Pack/Decode/Stable.antt =====
-- A reader that succeeds does not look past what it takes: more bytes behind join the rest.
use php_parallax.Prelude.{
  Bool, true, false, ◌++◌, ◌≡◌, Outcome, done, refused, ◌>>=◌, >>=-eq-done, if◌then◌else◌,
}
use php_parallax.Value.{Bytes}

-- `g` repeats what `f` took, whatever follows, where `f` succeeds.
abbrev pub Extends {ℓ} :
    {A : Type ℓ} → (Bytes → Outcome (A × Bytes)) → (Bytes → Outcome (A × Bytes)) → Type ℓ
Extends {A = A} f g =
    (p more : Bytes) (a : A) (r : Bytes) → f p ≡ done (a, r) → g (p ++ more) ≡ done (a, r ++ more)

abbrev pub Stable {ℓ} : {A : Type ℓ} → (Bytes → Outcome (A × Bytes)) → Type ℓ
Stable f = Extends f f

pub Stable-done {ℓ} : {A : Type ℓ} (a : A) → Stable (λ p. done (a, p))
Stable-done a p more b r e = cc

pub Extends-refused {ℓ} : {A : Type ℓ} (g : Bytes → Outcome (A × Bytes)) → Extends (λ p. refused) g
Extends-refused g p more b r e = cc

pub Extends-bind {ℓ κ} :
    {A : Type ℓ} {B : Type κ} (m m' : Bytes → Outcome (A × Bytes))
    (f f' : A → Bytes → Outcome (B × Bytes))
    → Extends m m'
    → ((a : A) → Extends (f a) (f' a))
    → Extends (λ p. m p >>= λ (a, q). f a q) (λ p. m' p >>= λ (a, q). f' a q)
Extends-bind m m' f f' sm sf p more b r e =
    let ((a, q), first, rest) = >>=-eq-done (m p) (λ (a, q). f a q) e in
    rw (sm p more a q first) (sf a q more b r rest)

-- A step that does not read.
pub Extends-lift {ℓ κ} :
    {A : Type ℓ} {B : Type κ} (m : Outcome A) (f f' : A → Bytes → Outcome (B × Bytes))
    → ((a : A) → Extends (f a) (f' a))
    → Extends (λ p. m >>= λ a. f a p) (λ p. m >>= λ a. f' a p)
Extends-lift m f f' sf p more b r e =
    let (a, first, rest) = >>=-eq-done m (λ a. f a p) e in rw first (sf a p more b r rest)

pub Stable-bind {ℓ κ} :
    {A : Type ℓ} {B : Type κ} (m : Bytes → Outcome (A × Bytes))
    (f : A → Bytes → Outcome (B × Bytes))
    → Stable m
    → ((a : A) → Stable (f a))
    → Stable (λ p. m p >>= λ (a, q). f a q)
Stable-bind m f sm sf = Extends-bind m m f f sm sf

pub Stable-if {ℓ} :
    {A : Type ℓ} (t : Bool) (f g : Bytes → Outcome (A × Bytes))
    → Stable f
    → Stable g
    → Stable (λ p. if t then f p else g p)
Stable-if true f g sf sg = sf
Stable-if false f g sf sg = sg
