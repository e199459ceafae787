-- ===== src/Common/Maps.antt =====
-- A `HashMap` as a function from its keys, here UUIDs.
use Prim.Native.Nat.{ℕ}
use mathlib.Core.Option.{Option, none, some}
use backup_service.Common.Bools.{◌==◌, if◌then◌else◌}

abbrev pub Map {ℓ} : Type ℓ → Type ℓ
Map V = ℕ → Option V

module _ {ℓ} {V : Type ℓ} where
  abbrev pub empty : Map V
  empty k = none

  abbrev pub insert : ℕ → V → Map V → Map V
  insert k v m = λ j. if j == k then some v else m j
