-- ===== src/Dates/Layout.antt =====
-- `net_layout_to_chrono` of crates/oxidarr-cardigann/src/netlayout.rs.
pub mod Pieces
use oxidarr.Common.{
  ℕ, zero, suc, ◌+◌, ◌≤◌, ◌<◌, ◌==◌, ◌≡◌, refl, sym, ap, ◌∙◌, Bool, true, false, ◌&&◌, ◌||◌, leb,
  Option, none, some, List, [], ◌∷◌, ◌++◌, arith, length, Text, codes, text_eq, if◌then◌else◌,
  Bool-cases, inl, inr, find,
}
use oxidarr.Common.Outcome.{Outcome, ok, err, ◌>>=◌}
use oxidarr.Common.Split.{split_once}
use oxidarr.Common.Rounds as Rounds
use oxidarr.Template.{CardigannError, definition}

unfoldable pub tokens : List (Text × Text)
tokens =
    (codes "yyyy", codes "%Y")
    ∷ (codes "yy", codes "%y")
    ∷ (codes "MMMM", codes "%B")
    ∷ (codes "MMM", codes "%b")
    ∷ (codes "MM", codes "%m")
    ∷ (codes "M", codes "%-m")
    ∷ (codes "dddd", codes "%A")
    ∷ (codes "ddd", codes "%a")
    ∷ (codes "dd", codes "%d")
    ∷ (codes "d", codes "%-d")
    ∷ (codes "HH", codes "%H")
    ∷ (codes "H", codes "%-H")
    ∷ (codes "hh", codes "%I")
    ∷ (codes "h", codes "%-I")
    ∷ (codes "mm", codes "%M")
    ∷ (codes "m", codes "%-M")
    ∷ (codes "ss", codes "%S")
    ∷ (codes "s", codes "%-S")
    ∷ (codes "tt", codes "%p")
    ∷ (codes "fff", codes "%.3f")
    ∷ (codes "zzz", codes "%:z")
    ∷ (codes "zz", codes "%z")
    ∷ (codes "K", codes "%:z")
    ∷ []

-- What `push_literal_char` and `push_literal` append.
unfoldable pub literal_char : ℕ → Text
literal_char c = if c == 37 then codes "%%" else c ∷ []

unfoldable pub literal : Text → Text
unfolding literal_char
literal [] = []
literal (c ∷ s) = literal_char c ++ literal s

unfoldable pub is_ascii_alphabetic : ℕ → Bool
is_ascii_alphabetic c = leb 65 c && leb c 90 || leb 97 c && leb c 122

-- The run of `c` that a text begins with, and what follows.
abbrev longer : ℕ → Text × Text → Text × Text
longer c (run, tail) = (c ∷ run, tail)

unfoldable pub take_run : ℕ → Text → Text × Text
take_run c [] = ([], [])
take_run c (d ∷ s) = let rest = take_run c s in if d == c then longer d rest else ([], d ∷ s)

unfoldable pub directive_of : Text → Option Text
unfolding tokens
directive_of run = of_entry (find (λ entry. text_eq entry.0 run) tokens)
  where
    of_entry : Option (Text × Text) → Option Text
    of_entry none = none
    of_entry (some (token, directive)) = some directive

-- `{:?}` of text.
module _ (debug : Text → Text) (layout : Text) where
  abbrev Result : Type 0
  Result = Outcome CardigannError Text

  -- The rounds after one that appended `out`.
  abbrev pub onto : Text → Result → Result
  onto out (ok rest) = ok (out ++ rest)
  onto out (err e) = err e

  abbrev unrecognized : Text → Result
  unrecognized run = err (
      definition
        (codes "unrecognized letter run " ++ debug run ++ codes " in time layout " ++ debug layout))

  module _ (rec : Text → Result) where
    unfoldable quoted : Text → Option (Text × Text) → Result
    unfolding literal
    quoted tail none = ok (literal tail)
    quoted tail (some (inside, after)) = onto (literal inside) (rec after)

    unfoldable escaped : Text → Result
    unfolding literal_char
    escaped [] = onto (literal_char 92) (rec [])
    escaped (c ∷ s) = onto (literal_char c) (rec s)

    unfoldable lettered : Text × Text → Option Text → Result
    lettered (run, tail) none = unrecognized run
    lettered (run, tail) (some directive) = onto directive (rec tail)

  unfoldable pub round : (Text → Result) → Text → Result
  unfolding quoted escaped lettered literal_char split_once take_run directive_of
      is_ascii_alphabetic
  round rec [] = ok []
  round rec (c ∷ s) =
      if c == 39
      then quoted rec s (split_once 39 s)
      else if c == 92
      then escaped rec s
      else if is_ascii_alphabetic c
      then lettered rec (longer c (take_run c s)) (directive_of (c ∷ (take_run c s).0))
      else onto (literal_char c) (rec s)

unfoldable pub net_layout_to_chrono : (Text → Text) → Text → Outcome CardigannError Text
unfolding round Rounds.loop
net_layout_to_chrono debug layout = Rounds.loop (ok []) (round debug layout) layout
