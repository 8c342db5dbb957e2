-- ===== src/Common/Str.antt =====
-- Methods of `str`, and how long their results are.
use oxidarr.Common.{
  ℕ, suc, ◌+◌, ◌≤◌, ◌==◌, ◌≡◌, refl, ◌&&◌, Option, none, some, List, [], ◌∷◌, ◌++◌, length, arith,
  Text, is_whitespace, if◌then◌else◌, Bool-cases, inl, inr,
}

-- `find` of a two-character needle, and the text on both sides of it.
abbrev pub keep : ℕ → Option (Text × Text) → Option (Text × Text)
keep c none = none
keep c (some (before, after)) = some (c ∷ before, after)

unfoldable pub split_pair : ℕ → ℕ → Text → Option (Text × Text)
split_pair a b [] = none
split_pair a b (c ∷ []) = none
split_pair a b (c ∷ d ∷ rest) =
    let later = split_pair a b (d ∷ rest) in
    if c == a && d == b then some ([], rest) else keep c later

-- `trim_start`, `trim_end`, `trim`.
unfoldable pub trim_start : Text → Text
trim_start [] = []
trim_start (c ∷ s) = if is_whitespace c then trim_start s else c ∷ s

abbrev pub cons_end : ℕ → Text → Text
cons_end c [] = if is_whitespace c then [] else c ∷ []
cons_end c (d ∷ s) = c ∷ d ∷ s

unfoldable pub trim_end : Text → Text
trim_end [] = []
trim_end (c ∷ s) = cons_end c (trim_end s)

unfoldable pub trim : Text → Text
unfolding trim_start trim_end
trim s = trim_end (trim_start s)

-- `split_whitespace().next().unwrap_or_default()`
unfoldable pub word : Text → Text
word [] = []
word (c ∷ s) = if is_whitespace c then [] else c ∷ word s

unfoldable pub first_word : Text → Text
unfolding word trim_start
first_word s = word (trim_start s)

-- `split_whitespace`, where `current` is what the current one has so far.
abbrev close_word : Text → List Text → List Text
close_word [] words = words
close_word (c ∷ current) words = (c ∷ current) ∷ words

unfoldable words_from : Text → Text → List Text
unfolding is_whitespace
words_from current [] = close_word current []
words_from current (c ∷ s) =
    let space = is_whitespace c in
    let rest = words_from (if space then [] else current ++ c ∷ []) s in
    if space then close_word current rest else rest

unfoldable pub split_whitespace : Text → List Text
unfolding words_from
split_whitespace s = words_from [] s

unfoldable pub drop : ℕ → Text → Text
drop n [] = []
drop ℕ.zero s = s
drop (ℕ.suc n) (c ∷ s) = drop n s

keep-length :
    (c : ℕ) (n k : ℕ) (found : Option (Text × Text)) (before after : Text)
    → ((b e : Text) → found ≡ some (b, e) → length b + k + length e ≡ n)
    → keep c found ≡ some (before, after)
    → length before + k + length after ≡ suc n
keep-length c n k none before after h e = cc
keep-length c n k (some (b, a)) before after h e = ground (arith, e, h b a refl)

-- The parts and the needle make up the text.
pub split_pair-length :
    (a b : ℕ) (s before after : Text)
    → split_pair a b s ≡ some (before, after)
    → length before + 2 + length after ≡ length s
unfolding split_pair
split_pair-length a b [] before after h = cc
split_pair-length a b (c ∷ []) before after h = cc
split_pair-length a b (c ∷ d ∷ rest) before after h = elim (Bool-cases (c == a && d == b)) [
  | inl e ↦ ground (arith, e, h)
  | inr e ↦
      keep-length c (suc (length rest)) 2 (split_pair a b (d ∷ rest)) before after
        (split_pair-length a b (d ∷ rest)) (rw e at h)
]

pub drop-length : (n : ℕ) (s : Text) → length (drop n s) ≤ length s
unfolding drop
drop-length n [] = omega arith
drop-length ℕ.zero (c ∷ s) = omega arith
drop-length (ℕ.suc n) (c ∷ s) = let short = drop-length n s in omega (arith, short)
