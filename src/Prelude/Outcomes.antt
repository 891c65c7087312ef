-- ===== src/Prelude/Outcomes.antt =====
-- Rust's `Result`, and the sequencing that `?` stands for.
use mathlib.Core.Path.{◌≡◌, refl}
use mathlib.Core.Logic.{◌⊎◌, inl, inr}
use mathlib.Core.Bool.{Bool, true, false}
use mathlib.Core.Option.{Option, none, some}

pub data Result {ℓ κ} (E : Type ℓ) (A : Type κ) : Type (ℓ ⊔ κ) where
  ok : A → Result E A
  err : E → Result E A

infixl 5 ◌>>=◌ ◌>>◌
abbrev pub ◌>>=◌ {ℓ κ μ} :
    {E : Type ℓ} {A : Type κ} {B : Type μ} → Result E A → (A → Result E B) → Result E B
ok a >>= f = f a
err e >>= f = err e

abbrev pub ◌>>◌ {ℓ κ} : {E : Type ℓ} {B : Type κ} → Result E (Unit {0}) → Result E B → Result E B
m >> k = m >>= λ _. k

module _ {ℓ κ} {E : Type ℓ} {A : Type κ} where
  -- `option.ok_or(e)`
  abbrev pub ok_or : Option A → E → Result E A
  ok_or none e = err e
  ok_or (some a) e = ok a

  -- `result.map_err(f)`
  abbrev pub map_err {μ} : {F : Type μ} → (E → F) → Result E A → Result F A
  map_err f (ok a) = ok a
  map_err f (err e) = err (f e)

  abbrev pub is_ok : Result E A → Bool
  is_ok (ok a) = true
  is_ok (err e) = false

  pub Result-cases : (r : Result E A) → ((a : A) × (r ≡ ok a)) ⊎ ((e : E) × (r ≡ err e))
  Result-cases (ok a) = inl (a, refl)
  Result-cases (err e) = inr (e, refl)

-- `if test { bail!(e) }`
abbrev pub bail_if {ℓ} : {E : Type ℓ} → Bool → E → Result E (Unit {0})
bail_if true e = err e
bail_if false e = ok tt

pub map_err-ok {ℓ κ μ} :
    {E : Type ℓ} {E' : Type κ} {A : Type μ} (f : E → E') (r : Result E A) (a : A)
    → map_err f r ≡ ok a
    → r ≡ ok a
map_err-ok f (ok b) a e = cc
map_err-ok f (err x) a e = absurd cc

pub bind_result-ok {ℓ κ μ} :
    {E : Type ℓ} {A : Type κ} {B : Type μ} (r : Result E A) (f : A → Result E B) (b : B)
    → (r >>= f) ≡ ok b
    → (a : A) × (r ≡ ok a) × (f a ≡ ok b)
bind_result-ok (ok a) f b e = (a, refl, e)
bind_result-ok (err x) f b e = absurd cc
