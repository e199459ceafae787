-- ===== src/Entropy/Frequencies.antt =====
-- ffi/c_src/entropy.c: the table counts the bytes, and the entropy depends on the counts alone.
use backup_service.Common.{
  ℕ, zero, suc, ◌+◌, ◌<◌, ◌≡◌, refl, sym, ap, ◌∙◌, List, [], ◌∷◌, arith, if◌then◌else◌, ◌==◌,
  length, select,
}
use backup_service.Entropy.{
  Floats, increment, zeros, count_bytes, frequencies, sum_terms, compute_shannon_entropy,
  shannon_entropy,
}

abbrev pub entry_at : ℕ → List ℕ → ℕ
entry_at i [] = 0
entry_at zero (n ∷ freq) = n
entry_at (suc i) (n ∷ freq) = entry_at i freq

-- How often a byte occurs.
abbrev pub occurrences : ℕ → List ℕ → ℕ
occurrences i bytes = length (select (λ b. b == i) bytes)

length-increment : (b : ℕ) (freq : List ℕ) → length (increment b freq) ≡ length freq
unfolding increment
length-increment b [] = refl
length-increment zero (n ∷ freq) = refl
length-increment (suc b) (n ∷ freq) = ap suc (length-increment b freq)

length-zeros : (n : ℕ) → length (zeros n) ≡ n
length-zeros zero = refl
length-zeros (suc n) = ap suc (length-zeros n)

entry_at-zeros : (i n : ℕ) → entry_at i (zeros n) ≡ 0
entry_at-zeros i zero = refl
entry_at-zeros zero (suc n) = refl
entry_at-zeros (suc i) (suc n) = entry_at-zeros i n

entry_at-increment :
    (i b : ℕ) (freq : List ℕ)
    → i < length freq
    → entry_at i (increment b freq) ≡ entry_at i freq + (if b == i then 1 else 0)
unfolding increment
entry_at-increment i b [] h = absurd (omega (arith, h))
entry_at-increment zero zero (n ∷ freq) h = refl
entry_at-increment zero (suc b) (n ∷ freq) h = ground arith
entry_at-increment (suc i) zero (n ∷ freq) h = ground arith
entry_at-increment (suc i) (suc b) (n ∷ freq) h =
    ground (arith, entry_at-increment i b freq (omega arith))

length-count_bytes : (freq bytes : List ℕ) → length (count_bytes freq bytes) ≡ length freq
unfolding count_bytes
length-count_bytes freq [] = refl
length-count_bytes freq (b ∷ bytes) =
    length-count_bytes (increment b freq) bytes ∙ length-increment b freq

entry_at-count_bytes :
    (i : ℕ) (freq bytes : List ℕ)
    → i < length freq
    → entry_at i (count_bytes freq bytes) ≡ entry_at i freq + occurrences i bytes
unfolding count_bytes
entry_at-count_bytes i freq [] h = omega arith
entry_at-count_bytes i freq (b ∷ bytes) h =
    let rest = entry_at-count_bytes i (increment b freq) bytes (rw length-increment h) in
    ground (arith, rest, entry_at-increment i b freq h)

length-frequencies : (bytes : List ℕ) → length (frequencies bytes) ≡ 256
unfolding frequencies
length-frequencies bytes = length-count_bytes (zeros 256) bytes ∙ length-zeros 256

-- The table that the C code fills holds at every byte value the number of its occurrences in the
-- slice.
pub entry_at-frequencies :
    (i : ℕ) (bytes : List ℕ) → i < 256 → entry_at i (frequencies bytes) ≡ occurrences i bytes
unfolding frequencies
entry_at-frequencies i bytes h =
    let count = entry_at-count_bytes i (zeros 256) bytes (rw length-zeros h) in
    omega (arith, count, entry_at-zeros i 256)

same_entries :
    (xs ys : List ℕ)
    → length xs ≡ length ys
    → ((i : ℕ) → i < length xs → entry_at i xs ≡ entry_at i ys)
    → xs ≡ ys
same_entries [] [] l h = refl
same_entries [] (y ∷ ys) l h = absurd (omega (arith, l))
same_entries (x ∷ xs) [] l h = absurd (omega (arith, l))
same_entries (x ∷ xs) (y ∷ ys) l h =
    let rest = same_entries xs ys (omega (arith, l)) (λ i k. h (suc i) (omega (arith, k))) in
    rw rest (ap (λ z. z ∷ ys) (h 0 (omega arith)))

-- The same bytes in another order.
abbrev pub SameCounts : List ℕ → List ℕ → Type 0
SameCounts xs ys =
    (length xs ≡ length ys) × ((i : ℕ) → i < 256 → occurrences i xs ≡ occurrences i ys)

frequencies-SameCounts : (xs ys : List ℕ) → SameCounts xs ys → frequencies xs ≡ frequencies ys
frequencies-SameCounts xs ys (l, same) =
    same_entries (frequencies xs) (frequencies ys)
      (length-frequencies xs ∙ sym (length-frequencies ys))
      (λ i h.
        let small : i < 256 = rw length-frequencies at h in
        entry_at-frequencies i xs small ∙ same i small ∙ sym (entry_at-frequencies i ys small))

-- Two slices of the same length in which every byte occurs as often have the same entropy, whatever
-- the floating-point operations are.
pub shannon_entropy-SameCounts :
    (f : Floats) (xs ys : List ℕ) → SameCounts xs ys → shannon_entropy f xs ≡ shannon_entropy f ys
unfolding shannon_entropy compute_shannon_entropy
shannon_entropy-SameCounts f [] [] h = refl
shannon_entropy-SameCounts f [] (y ∷ ys) (l, same) = absurd (omega (arith, l))
shannon_entropy-SameCounts f (x ∷ xs) [] (l, same) = absurd (omega (arith, l))
shannon_entropy-SameCounts f (x ∷ xs) (y ∷ ys) (l, same) =
    ap (λ (p : ℕ × List ℕ). sum_terms f p.0 (f.of_ℕ 0) p.1)
      (λ i. (l i, frequencies-SameCounts (x ∷ xs) (y ∷ ys) (l, same) i))
