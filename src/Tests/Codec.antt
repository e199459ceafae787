-- ===== src/Tests/Codec.antt =====
-- Codecs that know one value.
use text.Mathlib.Text.{◌==◌ as str_eq}
use text.Mathlib.TextEquality.{eq_iff}
use native.Mathlib.Decide.{ℕ_discrete}
use backup_service.Common.{
  ◌≡◌, refl, sym, ap, String, Result, ok, err, List, if◌then◌else◌, Bool-cases, inl, inr,
}
use backup_service.Common.Int.{ℤ}
use backup_service.Models.{Backup, Claims}

unfoldable pub String_discrete : Discrete String
String_discrete s t = elim (Bool-cases (str_eq s t)) [
  | inl same ↦ yes ((eq_iff s t).0 same)
  | inr other ↦ no (λ e. cc ((eq_iff s t).1 e, other))
]

unfoldable pub Backup_discrete : Discrete Backup
Backup_discrete = hlevel (ℕ_discrete, String_discrete)

unfoldable pub Claims_discrete : Discrete Claims
Claims_discrete = hlevel (ℕ_discrete, String_discrete)

unfoldable pub Page_discrete : Discrete (List Backup × ℤ)
Page_discrete = hlevel (ℕ_discrete, Backup_discrete)

-- A codec of one value.
abbrev pub write_only : {A : Type 0} → Discrete A → A → String → A → Result String String
write_only d a text x = elim (d x a) [ yes _ ↦ ok text | no _ ↦ err "unsupported" ]

abbrev pub read_only : {A : Type 0} → A → String → String → Result A String
read_only a text t = if str_eq t text then ok a else err "unsupported"

pub read-write_only :
    {A : Type 0} (d : Discrete A) (a : A) (text : String) (x : A) (t : String)
    → write_only d a text x ≡ ok t
    → read_only a text t ≡ ok x
read-write_only d a text x t e = go (d x a) e
  where
    go :
        (r : Dec (x ≡ a))
        → (elim r as (λ _. Result String String) [ yes _ ↦ ok text | no _ ↦ err "unsupported" ])
          ≡ ok t
        → read_only a text t ≡ ok x
    go (yes same) e = let t_ : text ≡ t = cc in rw ((eq_iff t text).1 (sym t_)) (ap ok (sym same))
    go (no _) e = cc

-- Nothing but the value is written.
pub write_only_lem :
    {A : Type 0} (d : Discrete A) (a : A) (text : String) (x : A) (t : String)
    → write_only d a text x ≡ ok t
    → x ≡ a
write_only_lem d a text x t e = go (d x a) e
  where
    go :
        (r : Dec (x ≡ a))
        → (elim r as (λ _. Result String String) [ yes _ ↦ ok text | no _ ↦ err "unsupported" ])
          ≡ ok t
        → x ≡ a
    go (yes same) e = same
    go (no _) e = cc

pub write_only_self :
    {A : Type 0} (d : Discrete A) (a : A) (text : String) → write_only d a text a ≡ ok text
write_only_self d a text = go (d a a)
  where
    go :
        (r : Dec (a ≡ a))
        → (elim r as (λ _. Result String String) [ yes _ ↦ ok text | no _ ↦ err "unsupported" ])
          ≡ ok text
    go (yes same) = refl
    go (no other) = absurd (other refl)
