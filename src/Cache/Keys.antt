-- ===== src/Cache/Keys.antt =====
-- cache.rs: no two entries share a key.
use Prim.Native.Char.{Char, code}
use Prim.Native.String.{String}
use mathlib.Core.Bool.{false}
use text.Mathlib.TextLemmas.{cons-append}
use backup_service.Common.{◌≡◌, ◌≢◌, refl, sym, ap, ◌∙◌, ◌==◌, arith}
use backup_service.Common.Text.{strip_prefix}
use backup_service.Common.Text.Affixes.{◌<>◌, strip_prefix-append}
use backup_service.Models.{Uuid}
use backup_service.Services.{Redis, Json, Uuids}
use backup_service.Services.Laws.{IsUuids}
use backup_service.Cache.{backup_key, tenant_key}

<>-injective : (p x y : String) → p <> x ≡ p <> y → x ≡ y
<>-injective p x y e =
    let same = sym (strip_prefix-append p x) ∙ ap (strip_prefix p) e ∙ strip_prefix-append p y in cc

different_heads :
    (c d : Char) (x y : String) → (code c == code d) ≡ false → String.◌∷◌ c x ≢ String.◌∷◌ d y
different_heads c d x y ne e =
    let hit = ap (strip_prefix (String.◌∷◌ c String.[])) e in ground arith

module _ (r : Redis) (j : Json) (u : Uuids) (laws : IsUuids u) where
  to_string-injective : (a b : Uuid) → u.to_string a ≡ u.to_string b → a ≡ b
  to_string-injective a b e =
      let parsed = sym (laws.round_trip a) ∙ ap u.parse e ∙ laws.round_trip b in cc

  pub backup_key-injective : (a b : Uuid) → backup_key r j u a ≡ backup_key r j u b → a ≡ b
  unfolding backup_key
  backup_key-injective a b e = to_string-injective a b (<>-injective "backup:" _ _ e)

  pub tenant_key-injective : (a b : Uuid) → tenant_key r j u a ≡ tenant_key r j u b → a ≡ b
  unfolding tenant_key
  tenant_key-injective a b e = to_string-injective a b (<>-injective "tenant_backups:" _ _ e)

  pub backup_key-ne-tenant_key : (a b : Uuid) → backup_key r j u a ≢ tenant_key r j u b
  unfolding backup_key tenant_key
  backup_key-ne-tenant_key a b e =
      different_heads "b" "t" ("ackup:" <> u.to_string a) ("enant_backups:" <> u.to_string b) refl (
        sym (cons-append "b" "ackup:" (u.to_string a))
        ∙ e
        ∙ cons-append "t" "enant_backups:" (u.to_string b))
