-- ===== src/Examples/Filters.antt =====
-- The theorems on filters and date layouts, at concrete inputs.
use oxidarr.Common.{
  ℕ, ◌≡◌, ◌↔◌, refl, true, none, some, List, [], ◌∷◌, Text, codes, filter, ◌<◌, leb, ◌&&◌, ◌||◌,
  ◌+◌, arith, is_whitespace, map, if◌then◌else◌,
}
use oxidarr.Common.Outcome.{ok, err}
use oxidarr.Common.Int.{negsuc}
use oxidarr.Common.Unique.{contains, unique, text_equality}
use oxidarr.Common.Split.{join}
use oxidarr.Dates.{Chrono}
use oxidarr.Dates.Layout.{net_layout_to_chrono}
use oxidarr.Dates.Layout.Pieces as Pieces
use oxidarr.Dates.Layout.Pieces.{
  Piece, token, quote, escape as escaped, other, print, chrono as directives, is_layout,
}
use oxidarr.Filters.{Engines, fancy, FilterCtx, re_replace}
use oxidarr.Filters.Unicode.{Unicode}
use oxidarr.Filters.Url as Url
use oxidarr.Filters.Url.{urlencoding_encode, urlencoding_decode}
use oxidarr.Filters.Html.{html_decode}
use oxidarr.Filters.Html.Escape as Escape
use oxidarr.Filters.Html.Escape.{escape}
use oxidarr.Filters.Words.{resolve_split_index, validate_tokens, validate_intersect}
use oxidarr.Filters.Words.Laws as WordLaws
use oxidarr.Filters.Words.Laws.{Denotes, Contains}
use oxidarr.Filters.Apply.{apply}
use oxidarr.Filters.Outcomes as Outcomes
use oxidarr.Filters.Outcomes.{Explains}

-- Unicode's tables on ASCII.
abbrev lower : ℕ → ℕ
lower c = if leb 65 c && leb c 90 then c + 32 else c

abbrev pub unicode : Unicode
unicode = record {
  to_uppercase = λ s. s;
  to_lowercase = map lower;
  is_alphanumeric = λ c. leb 48 c && leb c 57 || leb 65 c && leb c 90 || leb 97 c && leb c 122;
  is_uppercase = λ c. leb 65 c && leb c 90;
  char_to_lowercase = λ c. lower c ∷ [];
}

encoded_text : urlencoding_encode (codes "a b/~") ≡ codes "a+b%2F%7E"
unfolding urlencoding_encode
encoded_text = refl

-- A sign is taken for a digit.
decoded_sign : urlencoding_decode (codes "%+4") ≡ 4 ∷ []
unfolding urlencoding_decode
decoded_sign = refl

urlencoding_decode-encode_example :
    urlencoding_decode (urlencoding_encode (0x20ac ∷ codes " & 1")) ≡ 0x20ac ∷ codes " & 1"
urlencoding_decode-encode_example = Url.urlencoding_decode-encode (0x20ac ∷ codes " & 1") refl

html_decode-escape_example : html_decode (escape (codes "a&lt;b")) ≡ codes "a&lt;b"
html_decode-escape_example = Escape.html_decode-escape (codes "a&lt;b")

resolve_split_index_lem_example :
    (resolve_split_index (negsuc 0) 3 ≡ some 2) ↔ ((2 < 3) × Denotes (negsuc 0) 3 2)
resolve_split_index_lem_example = WordLaws.resolve_split_index_lem (negsuc 0) 3 2 (omega arith)

validated :
    validate_intersect unicode (codes "Drama / Sci-Fi, Action") (codes "action, drama, comedy")
    ≡ codes "action, drama"
unfolding validate_intersect is_whitespace
validated = refl

validate_intersect_lem_example :
    validate_intersect unicode (codes "Drama, Action") (codes "action,drama,comedy")
    ≡ join (codes ", ") (
        unique (
          filter
            (λ t. contains (validate_tokens unicode (codes "Drama, Action")) t)
            (validate_tokens unicode (codes "action,drama,comedy"))))
validate_intersect_lem_example =
    WordLaws.validate_intersect_lem unicode (codes "Drama, Action") (codes "action,drama,comedy")

-- yyyy-MM'T'HH%
abbrev layout : List Piece
layout =
    token 121 3
    ∷ other 45
    ∷ token 77 1
    ∷ quote (codes "T")
    ∷ token 72 1
    ∷ escaped 90
    ∷ other 37
    ∷ []

layout_pieces : is_layout layout ≡ true
unfolding is_layout
layout_pieces = refl

translated : net_layout_to_chrono (λ s. s) (codes "yyyy-MM'T'HH%") ≡ ok (codes "%Y-%mT%H%%")
unfolding net_layout_to_chrono
translated = refl

net_layout_to_chrono-print_example :
    net_layout_to_chrono (λ s. s) (print layout) ≡ ok (directives layout)
net_layout_to_chrono-print_example = Pieces.net_layout_to_chrono-print (λ s. s) layout layout_pieces

-- Engines of which the backtracking one gives up, and a clock that does not run.
abbrev pub engines : Engines Text Text
engines = record {
  fast_new = err;
  fancy_new = ok;
  fast_replace_all = λ re s r. s;
  fancy_try_replacen = λ re s r. err (codes "limit");
  fast_captures = λ re s. none;
  fancy_captures = λ re s. ok none;
}

abbrev pub clock : Chrono ℕ ℕ ℕ ℕ
clock = record {
  parse_datetime = λ s f. none;
  parse_naive_datetime = λ s f. none;
  parse_date = λ s f. none;
  parse_time = λ s f. none;
  midnight = some 0;
  at_time = λ d t. d;
  date_of = λ i. i;
  day_before = λ d. d;
  day_after = λ d. d + 1;
  year = λ i. codes "2026";
  to_rfc3339 = λ i. codes "now";
  no_time = 0;
  try_seconds = λ z. none;
  try_minutes = λ z. none;
  try_hours = λ z. none;
  try_days = λ z. none;
  try_weeks = λ z. none;
  checked_add = λ a b. some (a + b);
  negate = λ a. a;
  add_signed = λ i l. some i;
  sub_signed = λ i l. some i;
}

abbrev pub ctx : FilterCtx ℕ
ctx = record { now = 0; keywords = codes "dune" ∷ [] }

apply-Explains_example :
    Explains clock engines unicode
      (λ s. s)
      ctx
      (codes "a")
      (re_replace (fancy (codes "(?<=x)")) [])
      (apply clock engines unicode
        (λ s. s)
        (re_replace (fancy (codes "(?<=x)")) [])
        (codes "a")
        ctx)
apply-Explains_example =
    Outcomes.apply-Explains clock engines unicode (λ s. s) ctx (codes "a")
      (re_replace (fancy (codes "(?<=x)")) [])
