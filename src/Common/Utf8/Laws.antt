-- ===== src/Common/Utf8/Laws.antt =====
-- That text comes back from its bytes in UTF-8.
use oxidarr.Common.{
  ℕ, suc, ◌+◌, ◌-◌, ◌*◌, ◌/◌, ◌%◌, ◌≤◌, ◌<◌, ◌≡◌, refl, ap, ◌∙◌, Bool, true, ltb, List, [], ◌∷◌,
  ◌++◌, Text, arith, all, le→leb, Bool-cases, inl, inr,
}
use oxidarr.Common.Utf8.{
  is_scalar, utf8_char, utf8, Mode, first, later, at_first, took, step, from_utf8, from_utf8_lossy,
}

first_ascii : (b : ℕ) → b < 0x80 → at_first b ≡ (b ∷ [], first)
unfolding at_first
first_ascii b h = ground arith

first_two : (b : ℕ) → 0xc2 ≤ b → b < 0xe0 → at_first b ≡ ([], later 0 0x80 0xbf (b - 0xc0))
unfolding at_first
first_two b h k = ground arith

later_step :
    (more low high value b : ℕ)
    → low ≤ b
    → b ≤ high
    → step (later more low high value) b ≡ took more (value * 64 + (b - 0x80))
unfolding step
later_step more low high value b h k = rw (le→leb low b h, le→leb b high k) refl

module _ (low high value b c : ℕ) (bytes : List ℕ) where
  last_byte :
      low ≤ b
      → b ≤ high
      → value * 64 + (b - 0x80) ≡ c
      → from_utf8 (later 0 low high value) (b ∷ bytes) ≡ c ∷ from_utf8 first bytes
  unfolding from_utf8 step
  last_byte h k e = rw (later_step 0 low high value b h k) (ap (λ x. x ∷ from_utf8 first bytes) e)

  next_byte :
      (more : ℕ)
      → low ≤ b
      → b ≤ high
      → from_utf8 (later (suc more) low high value) (b ∷ bytes)
        ≡ from_utf8 (later more 0x80 0xbf (value * 64 + (b - 0x80))) bytes
  unfolding from_utf8 step
  next_byte more h k = rw (later_step (suc more) low high value b h k) refl

abbrev continuation : ℕ → ℕ
continuation n = 0x80 + n % 64

module _ (c : ℕ) (bytes : List ℕ) where
  last_of :
      (value : ℕ)
      → value ≡ c / 64
      → from_utf8 (later 0 0x80 0xbf value) (continuation c ∷ bytes) ≡ c ∷ from_utf8 first bytes
  last_of value e =
      last_byte 0x80 0xbf value (continuation c) c bytes (omega arith) (omega arith)
        (omega (arith, e))

  last_two :
      (low high value : ℕ)
      → value ≡ c / 4096
      → low ≤ continuation (c / 64)
      → continuation (c / 64) ≤ high
      → from_utf8 (later 1 low high value) (continuation (c / 64) ∷ continuation c ∷ bytes)
        ≡ c ∷ from_utf8 first bytes
  last_two low high value e h k =
      next_byte low high value (continuation (c / 64)) c (continuation c ∷ bytes) 0 h k
      ∙ last_of (value * 64 + (continuation (c / 64) - 0x80)) (omega (arith, e))

  last_three :
      (low high value : ℕ)
      → value ≡ c / 262144
      → low ≤ continuation (c / 4096)
      → continuation (c / 4096) ≤ high
      → from_utf8
          (later 2 low high value)
          (continuation (c / 4096) ∷ continuation (c / 64) ∷ continuation c ∷ bytes)
        ≡ c ∷ from_utf8 first bytes
  last_three low high value e h k =
      next_byte low high value (continuation (c / 4096)) c
        (continuation (c / 64) ∷ continuation c ∷ bytes) 1 h k
      ∙ last_two 0x80 0xbf (value * 64 + (continuation (c / 4096) - 0x80)) (omega (arith, e))
          (omega arith) (omega arith)

  -- What follows a first byte that is waited for in `mode`.
  after_first :
      (b : ℕ) (mode : Mode) (rest : List ℕ)
      → at_first b ≡ ([], mode)
      → from_utf8 first (b ∷ rest) ≡ from_utf8 mode rest
  unfolding from_utf8 step
  after_first b mode rest e = rw e refl

  two_bytes :
      0x80 ≤ c
      → c < 0x800
      → from_utf8 first ((0xc0 + c / 64) ∷ continuation c ∷ bytes) ≡ c ∷ from_utf8 first bytes
  two_bytes h k =
      after_first (0xc0 + c / 64) _ _ (first_two (0xc0 + c / 64) (omega arith) (omega arith))
      ∙ last_of (0xc0 + c / 64 - 0xc0) (omega arith)

  first_three :
      (v : ℕ) → 0 < v → v < 13 → at_first (0xe0 + v) ≡ ([], later 1 0x80 0xbf (0xe0 + v - 0xe0))
  unfolding at_first
  first_three v h k = ground arith

  first_three_high :
      (v : ℕ) → 13 < v → v < 16 → at_first (0xe0 + v) ≡ ([], later 1 0x80 0xbf (0xe0 + v - 0xe0))
  unfolding at_first
  first_three_high v h k = ground arith

  first_e0 : (v : ℕ) → v ≡ 0 → at_first (0xe0 + v) ≡ ([], later 1 0xa0 0xbf 0)
  unfolding at_first
  first_e0 v h = ground arith

  first_ed : (v : ℕ) → v ≡ 13 → at_first (0xe0 + v) ≡ ([], later 1 0x80 0x9f 13)
  unfolding at_first
  first_ed v h = ground arith

  abbrev three : List ℕ
  three = (0xe0 + c / 4096) ∷ continuation (c / 64) ∷ continuation c ∷ bytes

  three_bytes :
      0x800 ≤ c
      → c < 0x10000
      → is_scalar c ≡ true
      → from_utf8 first three ≡ c ∷ from_utf8 first bytes
  three_bytes h k s = elim (Bool-cases (ltb c 4096)) [
    | inl small ↦
        after_first _ _ _ (first_e0 (c / 4096) (ground arith))
        ∙ last_two 0xa0 0xbf 0 (ground arith) (ground arith) (omega arith)
    | inr large ↦ elim (Bool-cases (ltb c 0xd000)) [
      | inl below ↦
          after_first _ _ _ (first_three (c / 4096) (ground arith) (ground arith))
          ∙ last_two 0x80 0xbf _ (omega arith) (omega arith) (omega arith)
      | inr above ↦ elim (Bool-cases (ltb c 0xe000)) [
        | inl surrogates ↦
            after_first _ _ _ (first_ed (c / 4096) (ground arith))
            ∙ last_two 0x80 0x9f 13 (ground arith) (omega arith) (ground arith)
        | inr top ↦
            after_first _ _ _ (first_three_high (c / 4096) (ground arith) (ground arith))
            ∙ last_two 0x80 0xbf _ (omega arith) (omega arith) (omega arith)
      ]
    ]
  ]

  first_f0 : (v : ℕ) → v ≡ 0 → at_first (0xf0 + v) ≡ ([], later 2 0x90 0xbf 0)
  unfolding at_first
  first_f0 v h = ground arith

  first_four :
      (v : ℕ) → 0 < v → v < 4 → at_first (0xf0 + v) ≡ ([], later 2 0x80 0xbf (0xf0 + v - 0xf0))
  unfolding at_first
  first_four v h k = ground arith

  first_f4 : (v : ℕ) → v ≡ 4 → at_first (0xf0 + v) ≡ ([], later 2 0x80 0x8f 4)
  unfolding at_first
  first_f4 v h = ground arith

  abbrev four : List ℕ
  four =
      (0xf0 + c / 262144) ∷ continuation (c / 4096) ∷ continuation (c / 64) ∷ continuation c ∷ bytes

  four_bytes : 0x10000 ≤ c → c < 0x110000 → from_utf8 first four ≡ c ∷ from_utf8 first bytes
  four_bytes h k = elim (Bool-cases (ltb c 262144)) [
    | inl small ↦
        after_first _ _ _ (first_f0 (c / 262144) (ground arith))
        ∙ last_three 0x90 0xbf 0 (ground arith) (ground arith) (omega arith)
    | inr large ↦ elim (Bool-cases (ltb c 0x100000)) [
      | inl below ↦
          after_first _ _ _ (first_four (c / 262144) (ground arith) (ground arith))
          ∙ last_three 0x80 0xbf _ (omega arith) (omega arith) (omega arith)
      | inr above ↦
          after_first _ _ _ (first_f4 (c / 262144) (ground arith))
          ∙ last_three 0x80 0x8f 4 (ground arith) (omega arith) (ground arith)
    ]
  ]

  one_byte : c < 0x80 → from_utf8 first (c ∷ bytes) ≡ c ∷ from_utf8 first bytes
  unfolding from_utf8 step
  one_byte h = rw (first_ascii c h) refl

  from_utf8-utf8_char :
      is_scalar c ≡ true → from_utf8 first (utf8_char c ++ bytes) ≡ c ∷ from_utf8 first bytes
  unfolding utf8_char
  from_utf8-utf8_char s = elim (Bool-cases (ltb c 0x80)) [
    | inl a ↦ rw a (one_byte (ground arith))
    | inr a ↦ elim (Bool-cases (ltb c 0x800)) [
      | inl b ↦ rw (a, b) (two_bytes (ground arith) (ground arith))
      | inr b ↦ elim (Bool-cases (ltb c 0x10000)) [
        | inl d ↦ rw (a, b, d) (three_bytes (ground arith) (ground arith) s)
        | inr d ↦ rw (a, b, d) (four_bytes (ground arith) (ground arith))
      ]
    ]
  ]

-- Text comes back from its bytes.
pub from_utf8_lossy-utf8 : (s : Text) → all is_scalar s ≡ true → from_utf8_lossy (utf8 s) ≡ s
unfolding from_utf8_lossy utf8
from_utf8_lossy-utf8 [] h = refl
from_utf8_lossy-utf8 (c ∷ s) h =
    from_utf8-utf8_char c (utf8 s) (ground arith)
    ∙ ap (λ t. c ∷ t) (from_utf8_lossy-utf8 s (ground arith))

byte_of_char : (c : ℕ) → is_scalar c ≡ true → all (λ b. ltb b 256) (utf8_char c) ≡ true
unfolding utf8_char
byte_of_char c h = ground arith

all-append {ℓ} :
    {A : Type ℓ} (p : A → Bool) (xs ys : List A)
    → all p xs ≡ true
    → all p ys ≡ true
    → all p (xs ++ ys) ≡ true
all-append p [] ys h k = k
all-append p (x ∷ xs) ys h k = ground (arith, all-append p xs ys)

pub all-utf8 : (s : Text) → all is_scalar s ≡ true → all (λ b. ltb b 256) (utf8 s) ≡ true
unfolding utf8
all-utf8 [] h = refl
all-utf8 (c ∷ s) h =
    all-append (λ b. ltb b 256) (utf8_char c) (utf8 s) (byte_of_char c (ground arith))
      (all-utf8 s (ground arith))
