-- ===== src/Common/Outcome/Runs.antt =====
-- Code that succeeds.
use mathlib.Core.Path.{◌≡◌, refl, sym, subst}
use backup_service.Common.Outcome.{Result, ok, Exec, pure, lift, continue, ◌>>=◌}

-- The outcome is an answer.
abbrev pub IsOk {ℓ} : {A E : Type ℓ} → Result A E → Type ℓ
IsOk {A} r = (a : A) × (r ≡ ok a)

-- From every state the code succeeds.
pub record Runs {ℓ} {S E A : Type ℓ} (code : Exec S E A) : Type ℓ where
  pub at : (before : S) → IsOk (code before).0

module _ {ℓ} {S E A B : Type ℓ} where
  -- From the state where the code stands, it and what comes next succeed.
  pub bind-IsOk :
      (code : Exec S E A) (next : A → Exec S E B) (w : S) (a : A)
      → (code w).0 ≡ ok a
      → IsOk (next a (code w).1).0
      → IsOk ((code >>= next) w).0
  unfolding ◌>>=◌
  bind-IsOk code next w a first rest =
      subst (λ r. IsOk (continue r next (code w).1).0) (sym first) rest

  pub Runs-bind :
      (code : Exec S E A) (next : A → Exec S E B)
      → Runs code
      → ((a : A) → Runs (next a))
      → Runs (code >>= next)
  Runs-bind code next first rest = record {
    at = λ w. let (a, e) = first.at w in bind-IsOk code next w a e ((rest a).at (code w).1);
  }

module _ {ℓ} {S E A : Type ℓ} where
  pub Runs-pure : (a : A) → Runs (pure {S = S} {E = E} a)
  unfolding pure
  Runs-pure a = record { at = λ w. (a, refl) }

  pub Runs-lift : (r : Result A E) → IsOk r → Runs (lift {S = S} r)
  unfolding lift
  Runs-lift r h = record { at = λ w. h }
