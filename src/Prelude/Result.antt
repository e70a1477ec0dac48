-- ===== src/Prelude/Result.antt =====
-- A result or an error: Go's pair of a value and an error, of which one is meaningful.
use mathlib.Core.Path.{◌≡◌, subst}
use native.Mathlib.Omega.{arith}

pub data Result {ℓ κ} (E : Type ℓ) (A : Type κ) : Type (ℓ ⊔ κ) where
  ok : A → Result E A
  err : E → Result E A

-- `if err != nil { return nil, err }`
infixl 5 ◌>>=◌
abbrev pub ◌>>=◌ {ℓ κ μ} :
    {E : Type ℓ} {A : Type κ} {B : Type μ} → Result E A → (A → Result E B) → Result E B
ok a >>= f = f a
err e >>= f = err e

-- an error that says more about another
abbrev pub map_err {ℓ κ μ} :
    {E : Type ℓ} {F : Type κ} {A : Type μ} → (E → F) → Result E A → Result F A
map_err f (ok a) = ok a
map_err f (err e) = err (f e)

-- What holds of the value if there is one.
abbrev pub Returns {ℓ κ μ} : {E : Type ℓ} {A : Type κ} → (A → Type μ) → Result E A → Type μ
Returns P (ok a) = P a
Returns P (err e) = Unit

pub Returns->>= {ℓ κ μ ν ρ} :
    {E : Type ℓ} {A : Type κ} {B : Type μ} (Q : A → Type ν) (P : B → Type ρ) (m : Result E A)
    (f : A → Result E B)
    → Returns Q m
    → ((a : A) → Q a → Returns P (f a))
    → Returns P (m >>= f)
Returns->>= Q P (ok a) f q h = h a q
Returns->>= Q P (err e) f q h = tt

pub Returns->>=_any {ℓ κ μ ρ} :
    {E : Type ℓ} {A : Type κ} {B : Type μ} (P : B → Type ρ) (m : Result E A) (f : A → Result E B)
    → ((a : A) → Returns P (f a))
    → Returns P (m >>= f)
Returns->>=_any P (ok a) f h = h a
Returns->>=_any P (err e) f h = tt

pub Returns-map_err {ℓ κ μ ν} :
    {E : Type ℓ} {F : Type κ} {A : Type μ} (Q : A → Type ν) (g : E → F) (m : Result E A)
    → Returns Q m
    → Returns Q (map_err g m)
Returns-map_err Q g (ok a) q = q
Returns-map_err Q g (err e) q = tt

pub Returns-ok {ℓ κ μ} :
    {E : Type ℓ} {A : Type κ} (P : A → Type μ) (m : Result E A) {a : A}
    → Returns P m
    → m ≡ ok a
    → P a
Returns-ok P (ok b) h e = subst P (cc) h
Returns-ok P (err x) h e = absurd (ground (arith, e))
