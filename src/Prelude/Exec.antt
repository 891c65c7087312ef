-- ===== src/Prelude/Exec.antt =====
-- Methods on `&mut self` that return a `Result`. What was written before an early return stays
-- written, so the state comes back beside the error too.
use mathlib.Core.Path.{◌≡◌, refl, ap}
use mathlib.Core.Bool.{Bool, true, false}
use secure_tunnel.Prelude.Outcomes.{Result, ok, err}

abbrev pub Exec {ℓ κ μ} : Type ℓ → Type κ → Type μ → Type (ℓ ⊔ κ ⊔ μ)
Exec S E A = S → Result E A × S

module _ {ℓ κ μ} {S : Type ℓ} {E : Type κ} {A : Type μ} where
  abbrev pub pure : A → Exec S E A
  pure a s = (ok a, s)

  abbrev pub raise : E → Exec S E A
  raise e s = (err e, s)

  -- `e?` for an expression that does not touch the state.
  abbrev pub lift : Result E A → Exec S E A
  lift r s = (r, s)

  abbrev pub gets : (S → A) → Exec S E A
  gets f s = (ok (f s), s)

module _ {ℓ κ} {S : Type ℓ} {E : Type κ} where
  abbrev pub modify : (S → S) → Exec S E (Unit {0})
  modify f s = (ok tt, f s)

  -- `if test { return Err(e) }`
  abbrev pub fail_if : Bool → E → Exec S E (Unit {0})
  fail_if true e s = (err e, s)
  fail_if false e s = (ok tt, s)

module _ {ℓ κ μ ν} {S : Type ℓ} {E : Type κ} {A : Type μ} {B : Type ν} where
  abbrev pub continue : Result E A → (A → Exec S E B) → Exec S E B
  continue (ok a) f s = f a s
  continue (err e) f s = (err e, s)

  infixl 10 ◌>>=◌
  abbrev pub ◌>>=◌ : Exec S E A → (A → Exec S E B) → Exec S E B
  ◌>>=◌ m f s = continue (m s).0 f (m s).1

module _ {ℓ κ ν} {S : Type ℓ} {E : Type κ} {B : Type ν} where
  infixl 10 ◌>>◌
  abbrev pub ◌>>◌ : Exec S E (Unit {0}) → Exec S E B → Exec S E B
  m >> n = m >>= λ _. n

-- A sequence that ends well went well up to its end.
module _ {ℓ κ μ ν} {S : Type ℓ} {E : Type κ} {A : Type μ} {B : Type ν} where
  continue-ok :
      (r : Result E A) (f : A → Exec S E B) (t s' : S) (b : B)
      → continue r f t ≡ (ok b, s')
      → (a : A) × (r ≡ ok a) × (f a t ≡ (ok b, s'))
  continue-ok (ok a) f t s' b e = (a, refl, e)
  continue-ok (err x) f t s' b e = absurd cc

  pub bind-ok :
      (m : Exec S E A) (f : A → Exec S E B) (s s' : S) (b : B)
      → (m >>= f) s ≡ (ok b, s')
      → (a : A) × (t : S) × (m s ≡ (ok a, t)) × (f a t ≡ (ok b, s'))
  bind-ok m f s s' b e =
      let (a, first, rest) = continue-ok (m s).0 f (m s).1 s' b e in
      (a, (m s).1, ap (λ r. (r, (m s).1)) first, rest)

module _ {ℓ κ μ} {S : Type ℓ} {E : Type κ} {A : Type μ} where
  pub fail_if-ok :
      (b : Bool) (x : E) (m : Exec S E A) (s s' : S) (a : A)
      → (fail_if b x >> m) s ≡ (ok a, s')
      → (b ≡ false) × (m s ≡ (ok a, s'))
  fail_if-ok true x m s s' a e = absurd cc
  fail_if-ok false x m s s' a e = (refl, e)
