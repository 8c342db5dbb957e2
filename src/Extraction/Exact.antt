-- ===== src/Extraction/Exact.antt =====
-- That `parse_size` of crates/oxidarr-cardigann/src/engine.rs does not round but once.
use native.Mathlib.Nat.{
  mul_assoc, mul_comm, mul-le-mul_right, pow-suc, mul-add-div_right, one-le-pow, add-mul,
  mul_right_comm, pow-le-pow_right, mul-le-mul, le_trans,
}
use oxidarr.Common.{
  ℕ, zero, suc, ◌+◌, ◌*◌, ◌/◌, ◌^◌, ◌≤◌, ◌<◌, ◌≡◌, refl, sym, ap, subst, ◌∙◌, true, ◌&&◌, ◌==◌, leb,
  ltb, Option, none, some, [], ◌∷◌, any, length, Text, arith, Bool-cases, inl, inr, ltb→lt,
}
use oxidarr.Common.Numerals.{from_str_radix, unsigned_digits, digits_value, digit_value}
use oxidarr.Extraction.Size.{
  u64_max, saturated, first_chars, multiplier, size_of, sized, of_whole, frac_of, number, unit_of,
  size_of_text, cleaned, parse_size,
}

digit_value-lt : (c : ℕ) → ltb (digit_value c) 10 ≡ true → digit_value c < 10
digit_value-lt c h = ltb→lt (digit_value c) 10 h

ten_times : (acc d : ℕ) → d < 10 → acc * 10 + d + 1 ≤ (acc + 1) * 10
ten_times acc d h = omega (arith, h)

regroup : (a p : ℕ) → a * 10 * p ≡ a * (p * 10)
regroup a p = mul_assoc a 10 p ∙ ap (λ k. a * k) (mul_comm 10 p)

-- `k` decimal digits after `acc` give less than `(acc + 1) * 10 ^ k`.
digits_value-lt :
    (max acc : ℕ) (s : Text) (n : ℕ)
    → digits_value 10 max acc s ≡ some n
    → n < (acc + 1) * 10 ^ length s
unfolding digits_value
digits_value-lt max acc [] n h = ground (arith, h)
digits_value-lt max acc (c ∷ s) n h =
    elim (Bool-cases (ltb (digit_value c) 10 && leb (acc * 10 + digit_value c) max)) [
      | inl e ↦
          let small = digit_value-lt c (ground (arith, e)) in
          let short = digits_value-lt max (acc * 10 + digit_value c) s n (rw e at h) in
          let grown = mul-le-mul_right (10 ^ length s) (ten_times acc (digit_value c) small) in
          subst (λ k. n < k)
            (regroup (acc + 1) (10 ^ length s)
              ∙ ap (λ k. (acc + 1) * k) (sym (pow-suc 10 (length s))))
            (omega (arith, short, grown))
      | inr e ↦ ground (arith, e, h)
    ]

multiplier-le : (unit : Text) → multiplier unit ≤ 1024 ^ 4
unfolding multiplier
multiplier-le unit = ground arith

-- What is more than `u64` holds is its largest value, before or after the sum.
saturated_sum : (a b : ℕ) → saturated (saturated a + b) ≡ saturated (a + b)
unfolding saturated
saturated_sum a b = ground arith

saturated_small : (n : ℕ) → n ≤ u64_max → saturated n ≡ n
unfolding saturated
saturated_small n h = ground arith

scaled : (w p f m : ℕ) → w * m * p + f * m ≡ (w * p + f) * m
scaled w p f m = ap (λ k. k + f * m) (mul_right_comm w m p) ∙ sym (add-mul (w * p) f m)

size_of_lem :
    (whole frac places mult : ℕ)
    → frac * mult ≤ u64_max
    → size_of whole frac places mult ≡ saturated ((whole * 10 ^ places + frac) * mult / 10 ^ places)
unfolding size_of
size_of_lem whole frac places mult h =
    ap (λ k. saturated (saturated (whole * mult) + k / 10 ^ places))
      (saturated_small (frac * mult) h)
    ∙ saturated_sum (whole * mult) (frac * mult / 10 ^ places)
    ∙ ap saturated (
        sym (mul-add-div_right (one-le-pow places 10 (omega arith)) (whole * mult) (frac * mult))
        ∙ ap (λ k. k / 10 ^ places) (scaled whole (10 ^ places) frac mult))

first_chars-length : (n : ℕ) (s : Text) → length (first_chars n s) ≤ n
unfolding first_chars
first_chars-length zero s = omega arith
first_chars-length (suc n) [] = omega arith
first_chars-length (suc n) (c ∷ s) = omega (arith, first_chars-length n s)

digits-lt : (s : Text) (n : ℕ) → length s ≤ 6 → digits_value 10 u64_max 0 s ≡ some n → n < 10 ^ 6
digits-lt s n short h =
    omega (arith, digits_value-lt u64_max 0 s n h, pow-le-pow_right {n = 10} (omega arith) short)

unsigned_digits-lt :
    (s : Text) (n : ℕ) → length s ≤ 6 → unsigned_digits 10 u64_max s ≡ some n → n < 10 ^ 6
unsigned_digits-lt [] n short h = cc
unsigned_digits-lt (c ∷ s) n short h = digits-lt (c ∷ s) n short h

frac_of-lt : (s : Text) (n : ℕ) → length s ≤ 6 → frac_of s ≡ some n → n < 10 ^ 6
unfolding from_str_radix
frac_of-lt [] n short h = ground (arith, h)
frac_of-lt (c ∷ s) n short h = elim (Bool-cases (c == 43)) [
  | inl e ↦ unsigned_digits-lt s n (omega (arith, short)) (rw e at h)
  | inr e ↦ unsigned_digits-lt (c ∷ s) n short (rw e at h)
]

fits :
    (s : Text) (frac : ℕ) (unit : Text)
    → length s ≤ 6
    → frac_of s ≡ some frac
    → frac * multiplier unit ≤ u64_max
fits s frac unit short h =
    let small = frac_of-lt s frac short h in
    le_trans (mul-le-mul {n₁ = frac} {n₂ = 10 ^ 6} (omega (arith, small)) (multiplier-le unit))
      (omega arith)

size_inj :
    (whole places mult frac n : ℕ)
    → sized whole places mult (some frac) ≡ some n
    → size_of whole frac places mult ≡ n
size_inj whole places mult frac n h = ground (arith, h)

-- A size to the byte, rounded down, from its digits and its unit.
abbrev pub IsExact : Text → ℕ → Type 0
IsExact text n =
    (whole : ℕ) × (frac : ℕ) × (from_str_radix 10 u64_max (number text).0 ≡ some whole)
    × (frac_of (first_chars 6 (number text).1) ≡ some frac)
    × (n
        ≡ saturated (
            (whole * 10 ^ length (first_chars 6 (number text).1) + frac)
            * multiplier (unit_of text)
            / 10 ^ length (first_chars 6 (number text).1)))

-- A size that is read is its decimal number, of at most six places, times its unit, without any
-- rounding but that of the result to a whole number of bytes, and at most the largest `u64`.
pub parse_size-IsExact :
    (to_uppercase : Text → Text) (input : Text) (n : ℕ)
    → parse_size to_uppercase input ≡ some n
    → IsExact (cleaned to_uppercase input) n
unfolding parse_size size_of_text
parse_size-IsExact to_uppercase input n h =
    of_parts (from_str_radix 10 u64_max (number text).0) refl h
  where
    text : Text
    text = cleaned to_uppercase input

    of_frac :
        (whole : ℕ) (r : Option ℕ)
        → from_str_radix 10 u64_max (number text).0 ≡ some whole
        → frac_of (first_chars 6 (number text).1) ≡ r
        → sized whole (length (first_chars 6 (number text).1)) (multiplier (unit_of text)) r
          ≡ some n
        → IsExact text n
    of_frac whole none e f k = cc
    of_frac whole (some frac) e f k = (
      whole,
      frac,
      e,
      f,
      sym (
            size_inj whole (length (first_chars 6 (number text).1)) (multiplier (unit_of text)) frac
              n k)
          ∙ size_of_lem whole frac (length (first_chars 6 (number text).1))
              (multiplier (unit_of text))
              (fits (first_chars 6 (number text).1) frac (unit_of text)
                (first_chars-length 6 (number text).1) f),
    )

    of_parts :
        (r : Option ℕ)
        → from_str_radix 10 u64_max (number text).0 ≡ r
        → of_whole (number text).1 (multiplier (unit_of text)) r ≡ some n
        → IsExact text n
    of_parts none e k = cc
    of_parts (some whole) e k = elim (Bool-cases (any (λ c. c == 46) (number text).1)) [
      | inl d ↦ ground (arith, d, k)
      | inr d ↦ of_frac whole (frac_of (first_chars 6 (number text).1)) e refl (rw d at k)
    ]
