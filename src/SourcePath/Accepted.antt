-- ===== src/SourcePath/Accepted.antt =====
-- `validate_source_path` of handlers/backups.rs: which paths it accepts.
use backup_service.Common.{String, ◌≡◌, ◌↔◌, inl, inr, true, false, refl, ok, arith, Bool-cases}
use backup_service.Common.Text.{is_empty, starts_with, contains}
use backup_service.Common.Text.Affixes.{◌<>◌, starts_with_iff, contains_iff, IsInfix}
use backup_service.SourcePath.{validate_source_path}

-- An absolute path that holds no "..".
abbrev pub IsSafePath : String → Type 0
IsSafePath path = ((rest : String) × (path ≡ "/" <> rest)) × ¬ IsInfix ".." path

not-is_empty : (path : String) → starts_with "/" path ≡ true → is_empty path ≡ false
not-is_empty String.[] h = cc
not-is_empty (String.◌∷◌ c s) h = refl

accepted : (path : String) → validate_source_path path ≡ ok tt → IsSafePath path
unfolding validate_source_path
accepted path h =
    let absolute : starts_with "/" path ≡ true = ground arith in
    let plain : contains ".." path ≡ false = ground arith in
    (
      (starts_with_iff "/" path).0 absolute,
      λ dots. let hit = (contains_iff ".." path).1 dots in cc (hit, plain),
    )

accepts : (path : String) → IsSafePath path → validate_source_path path ≡ ok tt
unfolding validate_source_path
accepts path (absolute, plain) =
    let slash = (starts_with_iff "/" path).1 absolute in
    elim (Bool-cases (contains ".." path)) [
      | inl dots ↦ absurd (plain ((contains_iff ".." path).0 dots))
      | inr clean ↦ rw (not-is_empty path slash, slash, clean)
    ]

-- A source path is accepted exactly if it is "/" and a rest, and is not a text, ".." and a text.
pub validate_source_path_iff :
    (path : String) → (validate_source_path path ≡ ok tt) ↔ IsSafePath path
validate_source_path_iff path = (accepted path, accepts path)
