-- ===== src/Filters/Words.antt =====
-- Filters of crates/oxidarr-cardigann/src/filters.rs that take a text apart: `query_param`, `split`, `validate`,
-- `andmatch`, and the removal of characters.
pub mod Laws
use oxidarr.Common.{
  ℕ, zero, suc, ◌+◌, ◌-◌, ◌==◌, Bool, true, false, not, ◌&&◌, ◌||◌, ltb, leb, Option, none, some,
  List, [], ◌∷◌, ◌++◌, map, any, all, find, filter, length, get_elem?, Text, codes, text_eq,
  is_whitespace, if◌then◌else◌,
}
use oxidarr.Common.Int.{ℤ, pos, negsuc}
use oxidarr.Common.Numerals.{i64_max}
use oxidarr.Common.Str.{trim}
use oxidarr.Common.Split.{split_once, split_at_each, contains_text, join}
use oxidarr.Template.{is_empty}
use oxidarr.Filters.Unicode.{Unicode}

-- The query of a URL, or the whole text.
abbrev after_question : Text → Option (Text × Text) → Text
after_question input none = input
after_question input (some (before, q)) = q

abbrev pairs_of : List Text → List (Text × Text)
pairs_of [] = []
pairs_of (part ∷ parts) = with_pair (split_once 61 part) (pairs_of parts)
  where
    with_pair : Option (Text × Text) → List (Text × Text) → List (Text × Text)
    with_pair none rest = rest
    with_pair (some kv) rest = kv ∷ rest

abbrev value_or_empty : Option (Text × Text) → Text
value_or_empty none = []
value_or_empty (some (k, v)) = v

unfoldable pub query_param : Text → Text → Text
unfolding split_once split_at_each
query_param input key =
    let query = after_question input (split_once 63 input) in
    value_or_empty (find (λ kv. text_eq kv.0 key) (pairs_of (split_at_each (λ c. c == 38) query)))

-- The sum of a negative index and a length is no less than the index, so it does not overflow.
abbrev from_end : ℕ → ℕ → ℤ
from_end n len = if leb (suc n) len then pos (len - suc n) else negsuc (n - len)

abbrev in_range : ℕ → ℤ → Option ℕ
in_range len (pos i) = if ltb i len then some i else none
in_range len (negsuc n) = none

-- A length above `i64::MAX` counts as `i64::MAX`.
abbrev len_i64 : ℕ → ℕ
len_i64 len = if leb len i64_max then len else i64_max

unfoldable pub resolve_split_index : ℤ → ℕ → Option ℕ
resolve_split_index (pos i) len = in_range len (pos i)
resolve_split_index (negsuc n) len = in_range len (from_end n (len_i64 len))

-- `,`, a space, `/`, `)`, `(`, `.`, `;`, `[`, `]`, `"`, `|` and `:`.
abbrev pub is_validate_delimiter : ℕ → Bool
is_validate_delimiter c =
    c == 44
    || c == 32
    || c == 47
    || c == 41
    || c == 40
    || c == 46
    || c == 59
    || c == 91
    || c == 93
    || c == 34
    || c == 124
    || c == 58

unfoldable pub validate_tokens : Unicode → Text → List Text
unfolding split_at_each trim
validate_tokens unicode s =
    filter (λ t. not (is_empty t))
      (map trim (split_at_each is_validate_delimiter (unicode.to_lowercase s)))

-- The tokens that are seen and those that are kept, through the loop over the allowed ones.
unfoldable pub kept_tokens : List Text → List Text → List Text → List Text → List Text
kept_tokens data_tokens seen kept [] = kept
kept_tokens data_tokens seen kept (token ∷ allowed) =
    let keeps = any (λ t. text_eq t token) data_tokens && not (any (λ t. text_eq t token) seen) in
    kept_tokens data_tokens (if keeps then token ∷ seen else seen)
      (if keeps then kept ++ token ∷ [] else kept) allowed

unfoldable pub validate_intersect : Unicode → Text → Text → Text
unfolding kept_tokens validate_tokens join
validate_intersect unicode input whitelist =
    join (codes ", ")
      (kept_tokens (validate_tokens unicode input) [] [] (validate_tokens unicode whitelist))

abbrev take_limit : Option ℕ → Text → Text
take_limit none s = s
take_limit (some n) s = take n s
  where
    take : ℕ → Text → Text
    take zero s = []
    take (suc n) [] = []
    take (suc n) (c ∷ s) = c ∷ take n s

unfoldable ascii_lower : ℕ → ℕ
ascii_lower c = if leb 65 c && leb c 90 then c + 32 else c

-- `eq_ignore_ascii_case` with one of the stop words.
abbrev pub is_stop_word : Text → Bool
unfolding ascii_lower
is_stop_word part =
    let lower = map ascii_lower part in
    text_eq (codes "and") lower || text_eq (codes "the") lower || text_eq (codes "an") lower

unfoldable pub is_required : Text → Bool
unfolding ascii_lower
is_required part = ltb 1 (length part) && not (is_stop_word part)

-- The words that a row must have.
unfoldable pub required_words : Unicode → List Text → Option ℕ → List Text
unfolding join split_at_each is_required
required_words unicode keywords limit = filter is_required (
    split_at_each (λ c. not (unicode.is_alphanumeric c) && not (c == 95))
      (take_limit limit (join (codes " ") keywords)))

-- `false` drops the row.
unfoldable pub and_match : Unicode → Text → List Text → Option ℕ → Bool
unfolding required_words contains_text
and_match unicode input [] limit = true
and_match unicode input (word ∷ words) limit =
    all (λ part. contains_text (unicode.to_lowercase input) (unicode.to_lowercase part))
      (required_words unicode (word ∷ words) limit)

-- `trim_matches`
unfoldable trim_start_of : (ℕ → Bool) → Text → Text
trim_start_of p [] = []
trim_start_of p (c ∷ s) = if p c then trim_start_of p s else c ∷ s

unfoldable trim_end_of : (ℕ → Bool) → Text → Text
trim_end_of p [] = []
trim_end_of p (c ∷ s) = cons_end (trim_end_of p s)
  where
    cons_end : Text → Text
    cons_end [] = if p c then [] else c ∷ []
    cons_end (d ∷ t) = c ∷ d ∷ t

unfoldable pub trim_matches : (ℕ → Bool) → Text → Text
unfolding trim_start_of trim_end_of
trim_matches p s = trim_end_of p (trim_start_of p s)

-- `/`, a backslash, `:`, `*`, `?`, `"`, `<`, `>` and `|`.
unfoldable pub is_filename_char : ℕ → Bool
is_filename_char c = not (
    c == 47
    || c == 92
    || c == 58
    || c == 42
    || c == 63
    || c == 34
    || c == 60
    || c == 62
    || c == 124)
