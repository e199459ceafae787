-- ===== src/Common/Decimal.antt =====
-- `str::parse` and `to_string` of the standard library at `u64` and `i64`.
use Prim.Native.Char.{code}
use Prim.Native.Nat.{ℕ, zero, suc, ◌+◌, ◌-◌, ◌*◌, ◌/◌, ◌%◌, ◌^◌, ◌<◌, ◌≤◌}
use Prim.Native.String
use Prim.Native.String.{String}
use mathlib.Core.Path.{◌≡◌}
use mathlib.Core.Bool.{◌&&◌}
use mathlib.Core.Option.{Option, none, some}
use native.Mathlib.Omega.{arith}
use backup_service.Common.Bools.{◌==◌, ltb, leb, if◌then◌else◌, and_then}
use backup_service.Common.Int.{ℤ, pos, negsuc, pos_part, neg_part}
use backup_service.Common.Text.{strip_prefix, is_empty}

digits : ℕ → String → Option ℕ
digits n String.[] = some n
digits n (String.◌∷◌ ch rest) =
    let c = code ch in
    let more = digits (n * 10 + (c - 48)) rest in if leb 48 c && leb c 57 then more else none

unsigned : String → Option ℕ
unsigned s = if is_empty s then none else digits 0 s

-- A leading `+` is allowed.
without_plus : String → String
without_plus s = elim (strip_prefix "+" s) [ none ↦ s | some rest ↦ rest ]

below : ℕ → ℕ → Option ℕ
below limit n = if ltb n limit then some n else none

-- `parse::<u64>().ok()`
unfoldable pub parse_u64 : String → Option ℕ
unfolding digits unsigned without_plus below
parse_u64 s = and_then (unsigned (without_plus s)) (below (2 ^ 64))

negated : ℕ → ℤ
negated zero = pos 0
negated (suc n) = negsuc n

-- `parse::<i64>().ok()`
unfoldable pub parse_i64 : String → Option ℤ
unfolding digits unsigned without_plus below negated
parse_i64 s = elim (strip_prefix "-" s) [
  | some rest ↦ and_then (unsigned rest) (λ n. if leb n (2 ^ 63) then some (negated n) else none)
  | none ↦ and_then (unsigned (without_plus s)) (λ n. if ltb n (2 ^ 63) then some (pos n) else none)
]

below_bound : (o : Option ℕ) (limit n : ℕ) → and_then o (below limit) ≡ some n → n < limit
unfolding below
below_bound o limit n h = ground arith

pub parse_u64_bound : (s : String) (n : ℕ) → parse_u64 s ≡ some n → n < 2 ^ 64
unfolding parse_u64
parse_u64_bound s n h = below_bound (unsigned (without_plus s)) (2 ^ 64) n h

-- The range of an `i64`.
abbrev pub IsI64 : ℤ → Type 0
IsI64 z = (pos_part z < 2 ^ 63) × (neg_part z ≤ 2 ^ 63)

negative_bound :
    (o : Option ℕ) (z : ℤ)
    → and_then o (λ n. if leb n (2 ^ 63) then some (negated n) else none) ≡ some z
    → IsI64 z
unfolding negated
negative_bound none z h = cc
negative_bound (some zero) z h = ground arith
negative_bound (some (suc n)) z h = ground arith

positive_bound :
    (o : Option ℕ) (z : ℤ)
    → and_then o (λ n. if ltb n (2 ^ 63) then some (pos n) else none) ≡ some z
    → IsI64 z
positive_bound o z h = ground arith

pub parse_i64_bound : (s : String) (z : ℤ) → parse_i64 s ≡ some z → IsI64 z
unfolding parse_i64
parse_i64_bound s z h = go (strip_prefix "-" s) h
  where
    go :
        (o : Option String)
        → (elim o [
          | some rest ↦
              and_then (unsigned rest) (λ n. if leb n (2 ^ 63) then some (negated n) else none)
          | none ↦
              and_then
                (unsigned (without_plus s))
                (λ n. if ltb n (2 ^ 63) then some (pos n) else none)
        ])
          ≡ some z
        → IsI64 z
    go none e = positive_bound (unsigned (without_plus s)) z e
    go (some rest) e = negative_bound (unsigned rest) z e

digit : ℕ → String
digit d =
    if d == 0
    then "0"
    else if d == 1
    then "1"
    else if d == 2
    then "2"
    else if d == 3
    then "3"
    else if d == 4
    then "4"
    else if d == 5
    then "5"
    else if d == 6
    then "6"
    else if d == 7
    then "7"
    else if d == 8
    then "8"
    else "9"

-- The digits of `n` before a text; one unit of fuel for each digit.
to_string_from : ℕ → ℕ → String → String
to_string_from zero n text = text
to_string_from (suc fuel) n text =
    let longer = String.◌++◌ (digit (n % 10)) text in
    let rest = to_string_from fuel (n / 10) longer in if ltb n 10 then longer else rest

-- `to_string` of a `u64`, which has at most 20 digits.
unfoldable pub to_string : ℕ → String
unfolding digit to_string_from
to_string n = to_string_from 20 n ""
