-- ===== src/Common/Split.antt =====
-- `split`, `split_once`, `replace`, `contains` and `join` of `str`.
use oxidarr.Common.{
  ℕ, zero, suc, ◌-◌, ◌<◌, ◌==◌, ◌≡◌, refl, Bool, true, false, ◌&&◌, ◌||◌, Option, none, some, List,
  [], ◌∷◌, ◌++◌, length, arith, Text, if◌then◌else◌, Bool-cases, inl, inr,
}

-- The text before the first `c`, and the text after it.
abbrev pub keep : ℕ → Option (Text × Text) → Option (Text × Text)
keep c none = none
keep c (some (before, after)) = some (c ∷ before, after)

unfoldable pub split_once : ℕ → Text → Option (Text × Text)
split_once a [] = none
split_once a (c ∷ s) = let later = split_once a s in if c == a then some ([], s) else keep c later

abbrev pub onto_first : ℕ → List Text → List Text
onto_first c [] = (c ∷ []) ∷ []
onto_first c (part ∷ parts) = (c ∷ part) ∷ parts

-- `split` at every character with a property.
unfoldable pub split_at_each : (ℕ → Bool) → Text → List Text
split_at_each p [] = [] ∷ []
split_at_each p (c ∷ s) =
    let rest = split_at_each p s in if p c then [] ∷ rest else onto_first c rest

unfoldable pub starts_with : Text → Text → Bool
starts_with [] s = true
starts_with (c ∷ p) [] = false
starts_with (c ∷ p) (d ∷ s) = c == d && starts_with p s

-- `contains` of a text.
unfoldable pub contains_text : Text → Text → Bool
unfolding starts_with
contains_text [] needle = starts_with needle []
contains_text (c ∷ s) needle = starts_with needle (c ∷ s) || contains_text s needle

-- `split` at a separator that is not empty, in the middle of which `skip` characters are left.
unfoldable pub split_skip : Text → ℕ → Text → List Text
unfolding starts_with
split_skip sep skip [] = [] ∷ []
split_skip sep (suc skip) (c ∷ s) = split_skip sep skip s
split_skip sep zero (c ∷ s) =
    let here = starts_with sep (c ∷ s) in
    let rest = split_skip sep (if here then length sep - 1 else 0) s in
    if here then [] ∷ rest else onto_first c rest

abbrev each_char : Text → List Text
each_char [] = [] ∷ []
each_char (c ∷ s) = (c ∷ []) ∷ each_char s

-- An empty separator is found around each character.
unfoldable pub split_text : Text → Text → List Text
unfolding split_skip
split_text [] s = [] ∷ each_char s
split_text (c ∷ sep) s = split_skip (c ∷ sep) 0 s

unfoldable pub join : Text → List Text → Text
join sep [] = []
join sep (part ∷ []) = part
join sep (part ∷ part' ∷ parts) = part ++ sep ++ join sep (part' ∷ parts)

unfoldable pub replace : Text → Text → Text → Text
unfolding split_text join
replace from to s = join to (split_text from s)

keep-length :
    (c n : ℕ) (found : Option (Text × Text)) (before after : Text)
    → ((b e : Text) → found ≡ some (b, e) → length e < n)
    → keep c found ≡ some (before, after)
    → length after < suc n
keep-length c n none before after h e = cc
keep-length c n (some (b, a)) before after h e = ground (arith, e, h b a refl)

-- The text after a separator is shorter.
pub split_once-length :
    (a : ℕ) (s before after : Text)
    → split_once a s ≡ some (before, after)
    → length after < length s
unfolding split_once
split_once-length a [] before after h = cc
split_once-length a (c ∷ s) before after h = elim (Bool-cases (c == a)) [
  | inl e ↦ ground (arith, e, h)
  | inr e ↦
      keep-length c (length s) (split_once a s) before after (split_once-length a s) (rw e at h)
]
