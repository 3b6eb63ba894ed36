-- ===== src/Effects.antt =====
-- Fallible calls with a state: (value, error) results of Go, where the value beside an error is
-- dropped, as every caller of the program does; what was written before an error stays written.
use financial_crime_complian.Common.{Bool, true, false, ◌≡◌, refl, arith, if◌then◌else◌}
use financial_crime_complian.Domain.Errors.{Error}

pub data Result {ℓ} (A : Type ℓ) : Type ℓ where
  ok : A → Result A
  err : Error → Result A

abbrev pub Exec {ℓ} : Type ℓ → Type ℓ → Type ℓ
Exec S A = S → Result A × S

module _ {ℓ} {S A : Type ℓ} where
  unfoldable pub pure : A → Exec S A
  pure a s = (ok a, s)

  unfoldable pub raise : Error → Exec S A
  raise e s = (err e, s)

  -- if bad { return e }, and `m` behind it.
  unfoldable pub refuse_if : Bool → Error → Exec S A → Exec S A
  unfolding raise
  refuse_if bad e m = if bad then raise e else m

  -- A call that succeeds has passed its checks.
  pub refuse_if_ok :
      (bad : Bool) (e : Error) (m : Exec S A) (s t : S) (a : A)
      → refuse_if bad e m s ≡ (ok a, t)
      → (bad ≡ false) × (m s ≡ (ok a, t))
  unfolding refuse_if
  refuse_if_ok true e m s t a h = ground arith
  refuse_if_ok false e m s t a h = (refl, h)

  pub refuse_if_passed :
      (bad : Bool) (e : Error) (m : Exec S A) (s : S) → bad ≡ false → refuse_if bad e m s ≡ m s
  unfolding refuse_if
  refuse_if_passed bad e m s h = rw h

module _ {ℓ} {S A B : Type ℓ} where
  abbrev pub continue : Result A → (A → Exec S B) → Exec S B
  continue (ok a) f s = f a s
  continue (err e) f s = (err e, s)

  infixl 10 ◌>>=◌ ◌>>◌
  unfoldable pub ◌>>=◌ : Exec S A → (A → Exec S B) → Exec S B
  unfolding pure raise
  ◌>>=◌ m f s = let (r, s') = m s in continue r f s'

  abbrev pub ◌>>◌ : Exec S A → Exec S B → Exec S B
  m >> n = m >>= λ _. n
