-- ===== src/Tests/Unit/Entropy.antt =====
-- The tests of crates/backup-common/src/ffi.rs that need no logarithm.
use backup_service.Common.{ℕ, ◌-◌, ◌*◌, ◌≡◌, refl, Bool, true, false, not, ◌&&◌, [], ltb}
use backup_service.Entropy.{
  Floats, EntropyLevel, low, normal, high, very_high, shannon_entropy, classify, is_suspicious,
}

-- The tests' numbers are fractions.
abbrev fractions : Floats
fractions = record {
  F64 = ℕ × ℕ;
  of_ℕ = λ n. (n, 1);
  sub = λ x y. (x.0 * y.1 - y.0 * x.1, x.1 * y.1);
  mul = λ x y. (x.0 * y.0, x.1 * y.1);
  div = λ x y. (x.0 * y.1, x.1 * y.0);
  log = λ x. x;
  lt = λ x y. ltb (x.0 * y.1) (y.0 * x.1);
}

abbrev is_low : EntropyLevel → Bool
is_low low = true
is_low _ = false

abbrev is_normal : EntropyLevel → Bool
is_normal normal = true
is_normal _ = false

abbrev is_high : EntropyLevel → Bool
is_high high = true
is_high _ = false

abbrev is_very_high : EntropyLevel → Bool
is_very_high very_high = true
is_very_high _ = false

abbrev classify_entropy_levels : Bool
classify_entropy_levels =
    is_low (classify fractions (1, 1))
    && is_normal (classify fractions (5, 1))
    && is_high (classify fractions (7, 1))
    && is_very_high (classify fractions (78, 10))
    && is_suspicious very_high
    && not (is_suspicious normal)

classify_entropy_levels-passes : classify_entropy_levels ≡ true
unfolding classify is_suspicious
classify_entropy_levels-passes = refl

-- Whatever the numbers are.
empty_data_has_zero_entropy : (f : Floats) → shannon_entropy f [] ≡ f.of_ℕ 0
unfolding shannon_entropy
empty_data_has_zero_entropy f = refl
