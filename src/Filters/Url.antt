-- ===== src/Filters/Url.antt =====
-- `urlencoding_encode` and `urlencoding_decode` of crates/oxidarr-cardigann/src/filters.rs. Characters that
-- encoding leaves are bytes of ASCII, which are themselves as text.
use oxidarr.Common.{
  ℕ, ◌+◌, ◌*◌, ◌/◌, ◌%◌, ◌<◌, ◌==◌, ◌≡◌, refl, ap, ◌∙◌, Bool, true, false, ◌&&◌, ◌||◌, ltb, leb,
  Option, none, some, List, [], ◌∷◌, ◌++◌, arith, Text, if◌then◌else◌, all, Bool-cases, inl, inr,
}
use oxidarr.Common.Utf8.{utf8, utf8_char, from_utf8_lossy, is_scalar}
use oxidarr.Common.Utf8.Laws.{from_utf8_lossy-utf8, all-utf8}
use oxidarr.Common.Numerals.{from_str_radix, u8_max, digits_value, digit_value}

unfoldable pub is_safe : ℕ → Bool
is_safe b =
    leb 65 b && leb b 90
    || leb 97 b && leb b 122
    || leb 48 b && leb b 57
    || b == 45
    || b == 95
    || b == 46
    || b == 33
    || b == 42
    || b == 40
    || b == 41

-- A hexadecimal digit, in upper case.
unfoldable hex_digit : ℕ → ℕ
hex_digit n = if ltb n 10 then 48 + n else 55 + n

unfoldable encode_byte : ℕ → Text
unfolding is_safe hex_digit
encode_byte b =
    if is_safe b
    then b ∷ []
    else if b == 32
    then 43 ∷ []
    else 37 ∷ hex_digit (b / 16) ∷ hex_digit (b % 16) ∷ []

unfoldable encode_bytes : List ℕ → Text
unfolding encode_byte
encode_bytes [] = []
encode_bytes (b ∷ bytes) = encode_byte b ++ encode_bytes bytes

unfoldable pub urlencoding_encode : Text → Text
unfolding encode_bytes utf8
urlencoding_encode input = encode_bytes (utf8 input)

-- A `+` is a space.
unfoldable plain : ℕ → ℕ
plain b = if b == 43 then 32 else b

-- Two bytes that are not ASCII are no digits, whether or not they are UTF-8.
unfoldable escaped : ℕ → ℕ → ℕ → Option ℕ
unfolding from_str_radix
escaped c a b = if c == 37 then from_str_radix 16 u8_max (a ∷ b ∷ []) else none

unfoldable decode_bytes : List ℕ → List ℕ
unfolding plain escaped
decode_bytes [] = []
decode_bytes (c ∷ []) = plain c ∷ []
decode_bytes (c ∷ a ∷ []) = plain c ∷ decode_bytes (a ∷ [])
decode_bytes (c ∷ a ∷ b ∷ bytes) = elim (escaped c a b) [
  | some v ↦ v ∷ decode_bytes bytes
  | none ↦ plain c ∷ decode_bytes (a ∷ b ∷ bytes)
]

unfoldable pub urlencoding_decode : Text → Text
unfolding decode_bytes utf8 from_utf8_lossy
urlencoding_decode input = from_utf8_lossy (decode_bytes (utf8 input))

no_escape : (c a b : ℕ) → (c == 37) ≡ false → escaped c a b ≡ none
unfolding escaped
no_escape c a b h = rw h refl

decode-plain :
    (c : ℕ) (bytes : List ℕ)
    → (c == 37) ≡ false
    → decode_bytes (c ∷ bytes) ≡ plain c ∷ decode_bytes bytes
unfolding decode_bytes
decode-plain c [] h = refl
decode-plain c (a ∷ []) h = refl
decode-plain c (a ∷ b ∷ bytes) h = rw (no_escape c a b h, decode_bytes) refl

digit_value-hex_digit : (n : ℕ) → n < 16 → digit_value (hex_digit n) ≡ n
unfolding digit_value hex_digit
digit_value-hex_digit n h = ground arith

plus_is_no_digit : (n : ℕ) → n < 16 → (hex_digit n == 43) ≡ false
unfolding hex_digit
plus_is_no_digit n h = ground arith

escaped-hex :
    (h l : ℕ) → h < 16 → l < 16 → escaped 37 (hex_digit h) (hex_digit l) ≡ some (h * 16 + l)
unfolding escaped from_str_radix digits_value
escaped-hex h l k m =
    rw (plus_is_no_digit h k, digit_value-hex_digit h k, digit_value-hex_digit l m) (ground arith)

decode-escape :
    (b : ℕ) (bytes : List ℕ)
    → b < 256
    → decode_bytes (37 ∷ hex_digit (b / 16) ∷ hex_digit (b % 16) ∷ bytes) ≡ b ∷ decode_bytes bytes
unfolding decode_bytes
decode-escape b bytes h =
    rw (escaped-hex (b / 16) (b % 16) (omega arith) (omega arith), decode_bytes)
      (ap (λ x. x ∷ decode_bytes bytes) (omega arith))

not_percent : (b : ℕ) → is_safe b ≡ true → (b == 37) ≡ false
unfolding is_safe
not_percent b h = ground arith

plain-safe : (b : ℕ) → is_safe b ≡ true → plain b ≡ b
unfolding is_safe plain
plain-safe b h = ground arith

decode-encode_byte :
    (b : ℕ) (bytes : List ℕ)
    → b < 256
    → decode_bytes (encode_byte b ++ bytes) ≡ b ∷ decode_bytes bytes
unfolding encode_byte plain
decode-encode_byte b bytes h = elim (Bool-cases (is_safe b)) [
  | inl e ↦
      rw e
        (decode-plain b bytes (not_percent b e) ∙ ap (λ x. x ∷ decode_bytes bytes) (plain-safe b e))
  | inr e ↦ elim (Bool-cases (b == 32)) [
    | inl f ↦
        rw (e, f) (decode-plain 43 bytes refl ∙ ap (λ x. x ∷ decode_bytes bytes) (ground arith))
    | inr f ↦ rw (e, f) (decode-escape b bytes h)
  ]
]

decode-encode_bytes :
    (bytes : List ℕ) → all (λ b. ltb b 256) bytes ≡ true → decode_bytes (encode_bytes bytes) ≡ bytes
unfolding decode_bytes encode_bytes
decode-encode_bytes [] h = refl
decode-encode_bytes (b ∷ bytes) h =
    decode-encode_byte b (encode_bytes bytes) (ground arith)
    ∙ ap (λ s. b ∷ s) (decode-encode_bytes bytes (ground arith))

ascii_byte : (b : ℕ) → b < 256 → all (λ c. ltb c 0x80) (encode_byte b) ≡ true
unfolding encode_byte is_safe hex_digit
ascii_byte b h = ground arith

utf8-ascii : (s t : Text) → all (λ c. ltb c 0x80) s ≡ true → utf8 t ≡ t → utf8 (s ++ t) ≡ s ++ t
unfolding utf8 utf8_char
utf8-ascii [] t h e = e
utf8-ascii (c ∷ s) t h e = elim (Bool-cases (ltb c 0x80)) [
  | inl small ↦ rw small (ap (λ x. c ∷ x) (utf8-ascii s t (ground arith) e))
  | inr large ↦ absurd (ground (arith, large, h))
]

utf8-encode_bytes :
    (bytes : List ℕ)
    → all (λ b. ltb b 256) bytes ≡ true
    → utf8 (encode_bytes bytes) ≡ encode_bytes bytes
unfolding encode_bytes utf8
utf8-encode_bytes [] h = refl
utf8-encode_bytes (b ∷ bytes) h =
    utf8-ascii (encode_byte b) (encode_bytes bytes) (ascii_byte b (ground arith))
      (utf8-encode_bytes bytes (ground arith))

-- Text that `urlencode` wrote is read back by `urldecode`: every text is a sequence of
-- Unicode scalar values.
pub urlencoding_decode-encode :
    (s : Text) → all is_scalar s ≡ true → urlencoding_decode (urlencoding_encode s) ≡ s
unfolding urlencoding_decode urlencoding_encode
urlencoding_decode-encode s h =
    ap (λ b. from_utf8_lossy (decode_bytes b)) (utf8-encode_bytes (utf8 s) (all-utf8 s h))
    ∙ ap from_utf8_lossy (decode-encode_bytes (utf8 s) (all-utf8 s h))
    ∙ from_utf8_lossy-utf8 s h
