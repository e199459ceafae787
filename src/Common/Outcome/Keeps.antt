-- ===== src/Common/Outcome/Keeps.antt =====
-- Properties of the state that code keeps: the rules that `search` composes.
use mathlib.Core.Bool.{Bool, true, false}
use mathlib.Core.Path.{◌≡◌, refl, sym, subst}
use backup_service.Common.Bools.{if◌then◌else◌}
use backup_service.Common.Outcome.{Result, ok, err, Exec, pure, raise, lift, gets, continue, ◌>>=◌}

-- From a state with the property, the code leaves one with it, also where it fails.
pub record Keeps {ℓ} {S E A : Type ℓ} (Inv : S → Type ℓ) (code : Exec S E A) : Type ℓ where
  pub at : (before : S) → Inv before → Inv (code before).1

module _ {ℓ} {S E A : Type ℓ} {Inv : S → Type ℓ} where
  -- Code that leaves the state alone.
  Keeps-still : (code : Exec S E A) → ((w : S) → (code w).1 ≡ w) → Keeps Inv code
  Keeps-still code still = record { at = λ w inv. subst Inv (sym (still w)) inv }

  pub Keeps-lift : (outcome : Result A E) → Keeps Inv (lift outcome)
  unfolding lift
  Keeps-lift outcome = Keeps-still (lift outcome) (λ w. refl)

  pub Keeps-raise : (e : E) → Keeps Inv (raise {A = A} e)
  unfolding raise
  Keeps-raise e = Keeps-still (raise e) (λ w. refl)

  pub Keeps-pure : (value : A) → Keeps Inv (pure {E = E} value)
  unfolding pure
  Keeps-pure value = Keeps-still (pure value) (λ w. refl)

  pub Keeps-gets : (part : S → A) → Keeps Inv (gets {E = E} part)
  unfolding gets
  Keeps-gets part = Keeps-still (gets part) (λ w. refl)

  pub Keeps-if :
      (test : Bool) (yes_code no_code : Exec S E A)
      → Keeps Inv yes_code
      → Keeps Inv no_code
      → Keeps Inv (if test then yes_code else no_code)
  Keeps-if true yes_code no_code k _ = k
  Keeps-if false yes_code no_code _ k = k

module _ {ℓ} {S E A B : Type ℓ} {Inv : S → Type ℓ} where
  Keeps-continue :
      (outcome : Result A E) (next : A → Exec S E B) (w : S)
      → ((value : A) → Keeps Inv (next value))
      → Inv w
      → Inv (continue outcome next w).1
  Keeps-continue (err e) next w k inv = inv
  Keeps-continue (ok value) next w k inv = (k value).at w inv

  pub Keeps-bind :
      (code : Exec S E A) (next : A → Exec S E B)
      → Keeps Inv code
      → ((value : A) → Keeps Inv (next value))
      → Keeps Inv (code >>= next)
  unfolding ◌>>=◌
  Keeps-bind code next first_keeps k = record {
    at = λ w inv. Keeps-continue (code w).0 next (code w).1 k (first_keeps.at w inv);
  }

pub ruleset keeps_rules = (Keeps-bind, Keeps-if, Keeps-gets, Keeps-lift, Keeps-pure, Keeps-raise)

-- What holds after the first step, and is kept by the rest, holds at the end.
pub bind-at {ℓ} :
    {S E A B : Type ℓ} (Inv : S → Type ℓ) (code : Exec S E A) (next : A → Exec S E B) (w w' : S)
    (value : A)
    → code w ≡ (ok value, w')
    → Keeps Inv (next value)
    → Inv w'
    → Inv ((code >>= next) w).1
unfolding ◌>>=◌
bind-at Inv code next w w' value first k inv = rw first (k.at w' inv)

pub bind-ok {ℓ} :
    {S E A B : Type ℓ} (code : Exec S E A) (next : A → Exec S E B) (w w' : S) (value : A)
    → code w ≡ (ok value, w')
    → (code >>= next) w ≡ next value w'
unfolding ◌>>=◌
bind-ok code next w w' value first = rw first
