-- ===== src/Filters/Html/Escape.antt =====
-- Escaped text, and `html_decode` of crates/oxidarr-cardigann/src/filters.rs on it.
use oxidarr.Common.{
  ℕ, ◌==◌, ◌≡◌, refl, sym, ap, ◌∙◌, true, false, Option, none, some, [], ◌∷◌, ◌++◌, arith, Text,
  codes, if◌then◌else◌, Bool-cases, inl, inr,
}
use oxidarr.Common.Split.{split_once, keep}
use oxidarr.Filters.Html.{decode_entity, next_char, html_round, html_decode, html_decode-loop}

-- The five characters that markup escapes, and one level of escaping them.
unfoldable pub escape_char : ℕ → Text
escape_char c =
    if c == 38
    then codes "&amp;"
    else if c == 60
    then codes "&lt;"
    else if c == 62
    then codes "&gt;"
    else if c == 34
    then codes "&quot;"
    else if c == 39
    then codes "&#39;"
    else c ∷ []

unfoldable pub escape : Text → Text
unfolding escape_char
escape [] = []
escape (c ∷ s) = escape_char c ++ escape s

split_once-other :
    (a c : ℕ) (s : Text) → (c == a) ≡ false → split_once a (c ∷ s) ≡ keep c (split_once a s)
unfolding split_once
split_once-other a c s h = rw h refl

html_round-cons :
    (c : ℕ) (s : Text) (found : Option (Text × Text))
    → html_round html_decode (c ∷ s) (keep c found) ≡ c ∷ html_round html_decode s found
unfolding html_round
html_round-cons c s none = refl
html_round-cons c s (some (before, tail)) = refl

-- A character that is not `&` stays.
html_decode-plain : (c : ℕ) (s : Text) → (c == 38) ≡ false → html_decode (c ∷ s) ≡ c ∷ html_decode s
html_decode-plain c s h =
    html_decode-loop (c ∷ s)
    ∙ ap (html_round html_decode (c ∷ s)) (split_once-other 38 c s h)
    ∙ html_round-cons c s (split_once 38 s)
    ∙ ap (λ t. c ∷ t) (sym (html_decode-loop s))

-- An entity is decoded, and what it decodes to is not read again.
pub html_decode-entity :
    (name rest : Text) (c : ℕ)
    → split_once 59 (name ++ 59 ∷ rest) ≡ some (name, rest)
    → decode_entity name ≡ some c
    → html_decode (38 ∷ name ++ 59 ∷ rest) ≡ c ∷ html_decode rest
unfolding html_round next_char split_once
html_decode-entity name rest c h e = html_decode-loop (38 ∷ name ++ 59 ∷ rest) ∙ rw (h, e) refl

entity_of :
    (name rest : Text) (c d : ℕ)
    → (c == d) ≡ true
    → split_once 59 (name ++ 59 ∷ rest) ≡ some (name, rest)
    → decode_entity name ≡ some d
    → html_decode (38 ∷ name ++ 59 ∷ rest) ≡ c ∷ html_decode rest
entity_of name rest c d h e f =
    html_decode-entity name rest d e f ∙ ap (λ x. x ∷ html_decode rest) (ground (arith, h))

html_decode-escape_char : (c : ℕ) (s : Text) → html_decode (escape_char c ++ s) ≡ c ∷ html_decode s
unfolding escape_char split_once decode_entity
html_decode-escape_char c s = elim (Bool-cases (c == 38)) [
  | inl e ↦ rw e (entity_of (codes "amp") s c 38 e refl refl)
  | inr e ↦ elim (Bool-cases (c == 60)) [
    | inl f ↦ rw (e, f) (entity_of (codes "lt") s c 60 f refl refl)
    | inr f ↦ elim (Bool-cases (c == 62)) [
      | inl g ↦ rw (e, f, g) (entity_of (codes "gt") s c 62 g refl refl)
      | inr g ↦ elim (Bool-cases (c == 34)) [
        | inl h ↦ rw (e, f, g, h) (entity_of (codes "quot") s c 34 h refl refl)
        | inr h ↦ elim (Bool-cases (c == 39)) [
          | inl k ↦ rw (e, f, g, h, k) (entity_of (codes "#39") s c 39 k refl refl)
          | inr k ↦ rw (e, f, g, h, k) (html_decode-plain c s e)
        ]
      ]
    ]
  ]
]

-- Decoding takes off one level of escaping, and no more, of every text.
pub html_decode-escape : (s : Text) → html_decode (escape s) ≡ s
unfolding html_decode escape
html_decode-escape [] = refl
html_decode-escape (c ∷ s) =
    html_decode-escape_char c (escape s) ∙ ap (λ t. c ∷ t) (html_decode-escape s)
