-- ===== src/Common/Outcome/Achieves.antt =====
-- What holds of the state when code has succeeded.
use mathlib.Core.Path.{◌≡◌, refl}
use backup_service.Common.Outcome.Keeps.{Keeps}
use backup_service.Common.Outcome.{Result, ok, err, Exec, continue, ◌>>=◌}

-- From a state with `P`, the code leaves one with `Q` of its answer where it succeeds.
pub record Achieves {ℓ} {S E A : Type ℓ} (P : S → Type ℓ) (code : Exec S E A) (Q : A → S → Type ℓ)
    : Type ℓ where
  pub at : (before : S) → P before → (a : A) → (code before).0 ≡ ok a → Q a (code before).1

pub Achieves-kept {ℓ} :
    {S E A : Type ℓ} {P : S → Type ℓ} (code : Exec S E A) → Keeps P code → Achieves P code (λ _. P)
Achieves-kept code kept = record { at = λ w p _ _. kept.at w p }

module _ {ℓ} {S E A B : Type ℓ} {R : A → S → Type ℓ} where
  Achieves-continue :
      {Q : B → S → Type ℓ} (outcome : Result A E) (next : A → Exec S E B) (w : S)
      → ((a : A) → outcome ≡ ok a → R a w)
      → ((a : A) → Achieves (R a) (next a) Q)
      → (b : B) → (continue outcome next w).0 ≡ ok b
      → Q b (continue outcome next w).1
  Achieves-continue (ok a) next w first rest b e = (rest a).at w (first a refl) b e
  Achieves-continue (err x) next w first rest b e = cc

  pub Achieves-bind :
      {P : S → Type ℓ} {Q : B → S → Type ℓ} (code : Exec S E A) (next : A → Exec S E B)
      → Achieves P code R
      → ((a : A) → Achieves (R a) (next a) Q)
      → Achieves P (code >>= next) Q
  unfolding ◌>>=◌
  Achieves-bind code next first rest = record {
    at = λ w p. Achieves-continue (code w).0 next (code w).1 (first.at w p) rest;
  }

  Keeps-continue-achieved :
      (P : S → Type ℓ) (outcome : Result A E) (next : A → Exec S E B) (w : S)
      → P w
      → ((a : A) → outcome ≡ ok a → R a w)
      → ((a : A) (v : S) → R a v → P (next a v).1)
      → P (continue outcome next w).1
  Keeps-continue-achieved P (ok a) next w kept first rest = rest a w (first a refl)
  Keeps-continue-achieved P (err x) next w kept first rest = kept

  -- What comes next may rely on what has been achieved.
  pub Keeps-bind-achieved :
      (P : S → Type ℓ) (code : Exec S E A) (next : A → Exec S E B)
      → Keeps P code
      → Achieves P code R
      → ((a : A) (v : S) → R a v → P (next a v).1)
      → Keeps P (code >>= next)
  unfolding ◌>>=◌
  Keeps-bind-achieved P code next kept first rest = record {
    at = λ w p.
        Keeps-continue-achieved P (code w).0 next (code w).1 (kept.at w p) (first.at w p) rest;
  }
