-- ===== src/Entropy.antt =====
-- crates/backup-common/src/ffi.rs and ffi/c_src/entropy.c: the entropy of a byte slice and its
-- classes. The floating-point numbers and `log` are a parameter; `unsigned long` does not wrap, since
-- a count is at most the slice's length.
pub mod Frequencies
use backup_service.Common.{
  ℕ, zero, suc, ◌+◌, Bool, true, false, List, [], ◌∷◌, ltb, length, if◌then◌else◌,
}

pub record Floats : Type 1 where
  pub F64 : Type 0
  pub of_ℕ : ℕ → F64
  pub sub : F64 → F64 → F64
  pub mul : F64 → F64 → F64
  pub div : F64 → F64 → F64
  pub log : F64 → F64
  pub lt : F64 → F64 → Bool

-- `freq[i]++`; an index past the end is not reached by a byte.
increment : ℕ → List ℕ → List ℕ
increment i [] = []
increment zero (n ∷ freq) = (n + 1) ∷ freq
increment (suc i) (n ∷ freq) = n ∷ increment i freq

abbrev zeros : ℕ → List ℕ
zeros zero = []
zeros (suc n) = 0 ∷ zeros n

-- The loop over the bytes.
count_bytes : List ℕ → List ℕ → List ℕ
unfolding increment
count_bytes freq [] = freq
count_bytes freq (byte ∷ rest) = count_bytes (increment byte freq) rest

unfoldable pub frequencies : List ℕ → List ℕ
unfolding count_bytes
frequencies bytes = count_bytes (zeros 256) bytes

-- `EntropyLevel`
pub data EntropyLevel : Type 0 where
  low normal high very_high : EntropyLevel

-- `is_suspicious`
unfoldable pub is_suspicious : EntropyLevel → Bool
is_suspicious very_high = true
is_suspicious _ = false

module _ (f : Floats) where
  open f use {F64, of_ℕ, sub, mul, div, log, lt}

  -- The loop over the table, with `len` the length of the slice.
  sum_terms : ℕ → F64 → List ℕ → F64
  sum_terms len entropy [] = entropy
  sum_terms len entropy (n ∷ freq) =
      let p = div (of_ℕ n) (of_ℕ len) in
      let entropy' = sub entropy (mul p (div (log p) (log (of_ℕ 2)))) in
      sum_terms len (if ltb 0 n then entropy' else entropy) freq

  -- `compute_shannon_entropy`; `data` is never null here.
  unfoldable pub compute_shannon_entropy : List ℕ → F64
  unfolding sum_terms
  compute_shannon_entropy [] = of_ℕ 0
  compute_shannon_entropy (byte ∷ bytes) =
      sum_terms (length (byte ∷ bytes)) (of_ℕ 0) (frequencies (byte ∷ bytes))

  -- `shannon_entropy`
  unfoldable pub shannon_entropy : List ℕ → F64
  shannon_entropy [] = of_ℕ 0
  shannon_entropy (byte ∷ bytes) = compute_shannon_entropy (byte ∷ bytes)

  -- 6.5 and 7.5 are the exact quotients 13 / 2 and 15 / 2.
  unfoldable pub classify : F64 → EntropyLevel
  classify e =
      if lt e (of_ℕ 4)
      then low
      else if lt e (div (of_ℕ 13) (of_ℕ 2))
      then normal
      else if lt e (div (of_ℕ 15) (of_ℕ 2))
      then high
      else very_high
