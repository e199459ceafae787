-- ===== src/Common/Outcome/Yields.antt =====
-- What an action returns and keeps, with a rule for each way to build an action.
use mathlib.Core.Bool.{Bool, true, false}
use backup_service.Common.Bools.{if◌then◌else◌}
use backup_service.Common.Outcome.{Result, ok, err, Exec, pure, raise, lift, gets, continue, ◌>>=◌}

-- A result that is returned is such as `Q` says.
abbrev pub Good {ℓ} : {A E : Type ℓ} → (A → Type ℓ) → Result A E → Type ℓ
Good Q (ok a) = Q a
Good Q (err e) = Unit

-- From states with `P`, the action leaves one with `P`, and returns, if it does, what `Q` says.
pub record Yields {ℓ} {S E A : Type ℓ} (P : S → Type ℓ) (Q : A → Type ℓ) (m : Exec S E A)
    : Type ℓ where
  pub kept : (s : S) → P s → P (m s).1
  pub good : (s : S) → P s → Good Q (m s).0

module _ {ℓ} {S E A : Type ℓ} {P : S → Type ℓ} where
  pub Yields-pure : (Q : A → Type ℓ) (a : A) → Q a → Yields P Q (pure {E = E} a)
  unfolding pure
  Yields-pure Q a q = record { kept = λ s h. h; good = λ s h. q }

  pub Yields-raise : (Q : A → Type ℓ) (e : E) → Yields P Q (raise {A = A} e)
  unfolding raise
  Yields-raise Q e = record { kept = λ s h. h; good = λ s h. tt }

  pub Yields-lift : (r : Result A E) → Yields P (λ _. Unit) (lift r)
  unfolding lift
  Yields-lift r = record { kept = λ s h. h; good = λ s h. any r }
    where
      any : (r : Result A E) → Good (λ _. Unit) r
      any (ok a) = tt
      any (err e) = tt

  pub Yields-gets : (f : S → A) → Yields P (λ _. Unit) (gets {E = E} f)
  unfolding gets
  Yields-gets f = record { kept = λ s h. h; good = λ s h. tt }

  pub Yields-if :
      (Q : A → Type ℓ) (b : Bool) (m n : Exec S E A)
      → Yields P Q m
      → Yields P Q n
      → Yields P Q (if b then m else n)
  Yields-if Q true m n km kn = km
  Yields-if Q false m n km kn = kn

module _ {ℓ} {S E A B : Type ℓ} {P : S → Type ℓ} where
  continue_kept :
      (Q : A → Type ℓ) (R : B → Type ℓ) (r : Result A E) (f : A → Exec S E B) (s : S)
      → ((a : A) → Q a → Yields P R (f a))
      → P s
      → Good Q r
      → P (continue r f s).1 × Good R (continue r f s).0
  continue_kept Q R (ok a) f s kf h q = ((kf a q).kept s h, (kf a q).good s h)
  continue_kept Q R (err e) f s kf h q = (h, tt)

  pub Yields-bind :
      (Q : A → Type ℓ) (R : B → Type ℓ) (m : Exec S E A) (f : A → Exec S E B)
      → Yields P Q m
      → ((a : A) → Q a → Yields P R (f a))
      → Yields P R (m >>= f)
  unfolding ◌>>=◌
  Yields-bind Q R m f km kf = record {
    kept = λ s h. let (r, s') = m s in (continue_kept Q R r f s' kf (km.kept s h) (km.good s h)).0;
    good = λ s h. let (r, s') = m s in (continue_kept Q R r f s' kf (km.kept s h) (km.good s h)).1;
  }
