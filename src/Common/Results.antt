-- ===== src/Common/Results.antt =====
-- A value or an error, for Go's `(T, error)`.
use mathlib.Core.Bool.{Bool, true, false}
use mathlib.Core.Path.{◌≡◌, refl}
use mathlib.Core.Option.{Option, none, some}
use mathlib.Core.Logic.{◌⊎◌, inl, inr}

pub data Result {ℓ κ} (E : Type ℓ) (A : Type κ) : Type (ℓ ⊔ κ) where
  err : E → Result E A
  ok : A → Result E A

infixl 5 ◌>>=◌ ◌>>◌
abbrev pub ◌>>=◌ {ℓ κ μ} :
    {E : Type ℓ} {A : Type κ} {B : Type μ} → Result E A → (A → Result E B) → Result E B
err e >>= f = err e
ok a >>= f = f a

abbrev pub ◌>>◌ {ℓ μ} : {E : Type ℓ} {B : Type μ} → Result E (Unit {0}) → Result E B → Result E B
m >> k = m >>= λ _. k

-- `if bad { return err }`
abbrev pub reject {ℓ} : {E : Type ℓ} → Bool → E → Result E (Unit {0})
reject true e = err e
reject false e = ok tt

-- A failure under another name: `fmt.Errorf("...: %w", err)`.
abbrev pub wrap {ℓ κ} :
    {E : Type ℓ} {F : Type κ} → (E → F) → Result E (Unit {0}) → Result F (Unit {0})
wrap f (err e) = err (f e)
wrap f (ok u) = ok u

-- What a pointer leads to is checked, and nil passes.
abbrev pub when_some {ℓ κ} :
    {A : Type ℓ} {E : Type κ} → Option A → (A → Result E (Unit {0})) → Result E (Unit {0})
when_some none check = ok tt
when_some (some a) check = check a

pub reject_ok {ℓ κ} :
    {E : Type ℓ} {B : Type κ} (bad : Bool) (e : E) (m : Result E B) (b : B)
    → (reject bad e >> m) ≡ ok b
    → (bad ≡ false) × (m ≡ ok b)
reject_ok true e m b h = absurd (cc)
reject_ok false e m b h = (refl, h)

pub ok_unique {ℓ κ} :
    {E : Type ℓ} {B : Type κ} (r : Result E B) (a b : B) → r ≡ ok a → r ≡ ok b → a ≡ b
ok_unique r a b h k = cc

pub ok_injective {ℓ κ} :
    {E : Type ℓ} {A : Type κ} {a b : A} → ◌≡◌ {A = Result E A} (ok a) (ok b) → a ≡ b
ok_injective e = cc

pub Result-cases {ℓ κ} :
    {E : Type ℓ} {A : Type κ} (r : Result E A) → ((x : E) × (r ≡ err x)) ⊎ ((a : A) × (r ≡ ok a))
Result-cases (err x) = inl (x, refl)
Result-cases (ok a) = inr (a, refl)

-- A failure as another one: `fmt.Errorf("...: %w", err)` of a call that returns a value.
abbrev pub fail_as {ℓ κ μ} : {E : Type ℓ} {F : Type κ} {A : Type μ} → F → Result E A → Result F A
fail_as f (err e) = err f
fail_as f (ok a) = ok a
