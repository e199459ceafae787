-- ===== src/Common/Bytes.antt =====
-- `bytes`, `cycle` and `take` of the standard library: the UTF-8 of a text, repeated without end.
use Prim.Native.Char.{code}
use Prim.Native.Nat.{ℕ, zero, suc, ◌+◌, ◌/◌, ◌%◌}
use Prim.Native.String.{String}
use mathlib.Core.Path.{◌≡◌, refl, ap}
use mathlib.Core.List.{List, [], ◌∷◌, ◌++◌}
use backup_service.Common.Bools.{ltb, if◌then◌else◌}
use backup_service.Common.Lists.{length}

encode : ℕ → List ℕ
encode c =
    if ltb c 0x80
    then c ∷ []
    else if ltb c 0x800
    then (0xC0 + c / 0x40) ∷ (0x80 + c % 0x40) ∷ []
    else if ltb c 0x10000
    then (0xE0 + c / 0x1000) ∷ (0x80 + c / 0x40 % 0x40) ∷ (0x80 + c % 0x40) ∷ []
    else (0xF0 + c / 0x40000)
      ∷ (0x80 + c / 0x1000 % 0x40)
      ∷ (0x80 + c / 0x40 % 0x40)
      ∷ (0x80 + c % 0x40)
      ∷ []

unfoldable pub bytes : String → List ℕ
unfolding encode
bytes String.[] = []
bytes (String.◌∷◌ c s) = encode (code c) ++ bytes s

-- The next `n` items of the cycle over `whole`, of which `rest` is still to come in this round.
cycle_from : List ℕ → ℕ → List ℕ → List ℕ
cycle_from whole zero rest = []
cycle_from [] (suc n) [] = []
cycle_from (b ∷ whole) (suc n) [] = b ∷ cycle_from (b ∷ whole) n whole
cycle_from whole (suc n) (r ∷ rest) = r ∷ cycle_from whole n rest

-- `xs.cycle().take(n)`
unfoldable pub cycle_take : ℕ → List ℕ → List ℕ
unfolding cycle_from
cycle_take n xs = cycle_from xs n xs

length-cycle_from :
    (b : ℕ) (whole : List ℕ) (n : ℕ) (rest : List ℕ) → length (cycle_from (b ∷ whole) n rest) ≡ n
unfolding cycle_from
length-cycle_from b whole zero rest = refl
length-cycle_from b whole (suc n) [] = ap suc (length-cycle_from b whole n whole)
length-cycle_from b whole (suc n) (r ∷ rest) = ap suc (length-cycle_from b whole n rest)

-- The cycle over something fills any length.
pub length-cycle_take : (n b : ℕ) (xs : List ℕ) → length (cycle_take n (b ∷ xs)) ≡ n
unfolding cycle_take
length-cycle_take n b xs = length-cycle_from b xs n (b ∷ xs)
