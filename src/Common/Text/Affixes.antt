-- ===== src/Common/Text/Affixes.antt =====
-- The prefix and infix tests decide whether a text is a concatenation.
use Prim.Native.Char.{code}
use Prim.Native.String
use Prim.Native.String.{String}
use mathlib.Core.Path.{◌≡◌, refl, sym, ap}
use mathlib.Core.Logic.{◌↔◌, inl, inr}
use mathlib.Core.Bool.{true}
use mathlib.Core.Option.{Option, none, some}
use native.Mathlib.Omega.{arith}
use text.Mathlib.TextEquality.{Char-path}
use text.Mathlib.TextLemmas.{nil-append, cons-append}
use backup_service.Common.Bools.{◌==◌, ==_iff, ==_refl, Bool-cases}
use backup_service.Common.Text.{strip_prefix, starts_with, contains, is_some}

infixr 60 ◌<>◌
abbrev pub ◌<>◌ : String → String → String
s <> t = String.◌++◌ s t

pub strip_prefix-append : (p s : String) → strip_prefix p (p <> s) ≡ some s
strip_prefix-append String.[] s = rw nil-append
strip_prefix-append (String.◌∷◌ c p) s = rw (cons-append, ==_refl) (strip_prefix-append p s)

pub strip_prefix_split : (p s rest : String) → strip_prefix p s ≡ some rest → s ≡ p <> rest
strip_prefix_split String.[] s rest e = rw nil-append (ground arith)
strip_prefix_split (String.◌∷◌ c p) String.[] rest e = cc
strip_prefix_split (String.◌∷◌ c p) (String.◌∷◌ d s) rest e = elim (Bool-cases (code c == code d)) [
  | inl same ↦
      let rest_ = strip_prefix_split p s rest (rw same at e) in
      let head = Char-path c d ((==_iff _ _).0 same) in
      rw (cons-append, ← rest_) (λ i. String.◌∷◌ (sym head i) s)
  | inr other ↦ absurd (ground arith)
]

-- A text begins with `p` exactly if it is `p` and a rest.
pub starts_with_iff :
    (p s : String) → (starts_with p s ≡ true) ↔ ((rest : String) × (s ≡ p <> rest))
starts_with_iff p s = (go (strip_prefix p s) refl, λ h. rw (h.1, strip_prefix-append))
  where
    go :
        (o : Option String)
        → strip_prefix p s ≡ o
        → is_some o ≡ true
        → (rest : String) × (s ≡ p <> rest)
    go none e h = cc
    go (some rest) e h = (rest, strip_prefix_split p s rest e)

abbrev pub IsInfix : String → String → Type 0
IsInfix p s = (before : String) × (after : String) × (s ≡ before <> p <> after)

contains_sound : (p s : String) → contains p s ≡ true → IsInfix p s
contains_sound p String.[] h =
    let (rest, e) = (starts_with_iff p String.[]).0 h in (String.[], rest, rw nil-append e)
contains_sound p (String.◌∷◌ c s) h = elim (Bool-cases (starts_with p (String.◌∷◌ c s))) [
  | inl here ↦
      let (rest, e) = (starts_with_iff p (String.◌∷◌ c s)).0 here in
      (String.[], rest, rw nil-append e)
  | inr later ↦
      let (before, after, e) = contains_sound p s (rw later at h) in
      (String.◌∷◌ c before, after, rw cons-append (ap (λ t. String.◌∷◌ c t) e))
]

starts-contains : (p s : String) → starts_with p s ≡ true → contains p s ≡ true
starts-contains p String.[] h = h
starts-contains p (String.◌∷◌ c s) h = rw h

contains-append : (p before after : String) → contains p (before <> p <> after) ≡ true
contains-append p String.[] after =
    rw nil-append (starts-contains p (p <> after) ((starts_with_iff p _).1 (after, refl)))
contains-append p (String.◌∷◌ c before) after =
    rw cons-append (ground (arith, contains-append p before after))

-- A text contains `p` exactly if it is a text, `p` and a text.
pub contains_iff : (p s : String) → (contains p s ≡ true) ↔ IsInfix p s
contains_iff p s = (contains_sound p s, λ h. rw h.2 (contains-append p h.0 h.1))
