-- ===== src/Dates/Layout/Pieces.antt =====
-- A .NET layout as a list of pieces, and what `net_layout_to_chrono` of crates/oxidarr-cardigann/src/netlayout.rs
-- makes of it.
use oxidarr.Common.{
  ℕ, zero, suc, ◌≤◌, ◌<◌, ◌==◌, ◌≡◌, refl, sym, ap, ◌∙◌, Bool, true, false, not, ◌&&◌, Option, none,
  some, List, [], ◌∷◌, ◌++◌, arith, length, Text, Bool-cases, inl, inr, any, ==_refl,
}
use mathlib.Core.List.{append_assoc}
use oxidarr.Common.Outcome.{ok, err}
use oxidarr.Common.Split.{split_once, split_once-length}
use oxidarr.Common.Rounds as Rounds
use oxidarr.Dates.Layout.{
  literal, literal_char, is_ascii_alphabetic, take_run, longer, directive_of, onto, quoted, escaped,
  lettered, Result, round, net_layout_to_chrono,
}

-- A letter with further ones like it, a quoted text, an escaped character, and another one.
pub data Piece : Type 0 where
  token : ℕ → ℕ → Piece
  quote : Text → Piece
  escape : ℕ → Piece
  other : ℕ → Piece

abbrev repeat : ℕ → ℕ → Text
repeat zero c = []
repeat (suc n) c = c ∷ repeat n c

abbrev print_piece : Piece → Text
print_piece (token c n) = c ∷ repeat n c
print_piece (quote s) = 39 ∷ s ++ 39 ∷ []
print_piece (escape c) = 92 ∷ c ∷ []
print_piece (other c) = c ∷ []

unfoldable pub print : List Piece → Text
print [] = []
print (piece ∷ pieces) = print_piece piece ++ print pieces

abbrev or_nothing : Option Text → Text
or_nothing none = []
or_nothing (some s) = s

abbrev chrono_piece : Piece → Text
unfolding directive_of literal literal_char
chrono_piece (token c n) = or_nothing (directive_of (c ∷ repeat n c))
chrono_piece (quote s) = literal s
chrono_piece (escape c) = literal_char c
chrono_piece (other c) = literal_char c

unfoldable pub chrono : List Piece → Text
unfolding chrono_piece
chrono [] = []
chrono (piece ∷ pieces) = chrono_piece piece ++ chrono pieces

abbrev begins_with : ℕ → Text → Bool
begins_with c [] = false
begins_with c (d ∷ s) = d == c

abbrev is_known : Option Text → Bool
is_known none = false
is_known (some s) = true

-- A token is in the table and does not run into what follows, a quoted text has no quote, and
-- another character has no meaning of its own.
abbrev is_piece : Piece → Text → Bool
unfolding directive_of is_ascii_alphabetic
is_piece (token c n) rest =
    is_ascii_alphabetic c && is_known (directive_of (c ∷ repeat n c)) && not (begins_with c rest)
is_piece (quote s) rest = not (any (λ c. c == 39) s)
is_piece (escape c) rest = true
is_piece (other c) rest = not (c == 39) && not (c == 92) && not (is_ascii_alphabetic c)

unfoldable pub is_layout : List Piece → Bool
unfolding is_piece print
is_layout [] = true
is_layout (piece ∷ pieces) = is_piece piece (print pieces) && is_layout pieces

both : (a b : Bool) → (a && b) ≡ true → (a ≡ true) × (b ≡ true)
both true b h = (refl, h)
both false b h = cc

denied : (b : Bool) → not b ≡ true → b ≡ false
denied true h = cc
denied false h = refl

longer-length : (c : ℕ) (r : Text × Text) → (longer c r).1 ≡ r.1
longer-length c (run, tail) = refl

take_run-length : (c : ℕ) (s : Text) → length (take_run c s).1 ≤ length s
unfolding take_run
take_run-length c [] = omega arith
take_run-length c (d ∷ s) = elim (Bool-cases (d == c)) [
  | inl e ↦ rw (e, longer-length d (take_run c s)) (omega (arith, take_run-length c s))
  | inr e ↦ rw e (omega arith)
]

take_run-repeat :
    (c n : ℕ) (rest : Text)
    → begins_with c rest ≡ false
    → take_run c (repeat n c ++ rest) ≡ (repeat n c, rest)
unfolding take_run
take_run-repeat c zero [] h = refl
take_run-repeat c zero (d ∷ rest) h = rw h refl
take_run-repeat c (suc n) rest h = rw (==_refl c, take_run-repeat c n rest h) refl

split_once-quoted :
    (s rest : Text) → any (λ c. c == 39) s ≡ false → split_once 39 (s ++ 39 ∷ rest) ≡ some (s, rest)
unfolding split_once
split_once-quoted [] rest h = refl
split_once-quoted (c ∷ s) rest h = elim (Bool-cases (c == 39)) [
  | inl e ↦ absurd (ground (arith, e, h))
  | inr e ↦ rw (e, split_once-quoted s rest (ground (arith, e, h))) refl
]

module _ (debug : Text → Text) (layout : Text) where
  quoted-agree :
      (f g : Text → Result debug layout) (s : Text) (found : Option (Text × Text))
      → split_once 39 s ≡ found
      → ((t : Text) → length t < suc (length s) → f t ≡ g t)
      → quoted debug layout f s found ≡ quoted debug layout g s found
  unfolding quoted
  quoted-agree f g s none e h = refl
  quoted-agree f g s (some (inside, after)) e h =
      ap (onto debug layout (literal inside))
        (h after (omega (arith, split_once-length 39 s inside after e)))

  escaped-agree :
      (f g : Text → Result debug layout) (s : Text)
      → ((t : Text) → length t < suc (length s) → f t ≡ g t)
      → escaped debug layout f s ≡ escaped debug layout g s
  unfolding escaped
  escaped-agree f g [] h = ap (onto debug layout (literal_char 92)) (h [] (omega arith))
  escaped-agree f g (c ∷ s) h = ap (onto debug layout (literal_char c)) (h s (omega arith))

  lettered-agree :
      (f g : Text → Result debug layout) (n : ℕ) (r : Text × Text) (found : Option Text)
      → length r.1 ≤ n
      → ((t : Text) → length t < suc n → f t ≡ g t)
      → lettered debug layout f r found ≡ lettered debug layout g r found
  unfolding lettered
  lettered-agree f g n (run, tail) none k h = refl
  lettered-agree f g n (run, tail) (some directive) k h =
      ap (onto debug layout directive) (h tail (omega (arith, k)))

  round-Shortens : Rounds.Shortens (ok []) (round debug layout)
  unfolding round
  round-Shortens f g [] h = refl
  round-Shortens f g (c ∷ s) h = elim (Bool-cases (c == 39)) [
    | inl a ↦ rw a (quoted-agree f g s (split_once 39 s) refl h)
    | inr a ↦ elim (Bool-cases (c == 92)) [
      | inl b ↦ rw (a, b) (escaped-agree f g s h)
      | inr b ↦ elim (Bool-cases (is_ascii_alphabetic c)) [
        | inl l ↦
            rw (a, b, l)
              (lettered-agree f g (length s) (longer c (take_run c s)) _
                (rw (longer-length c (take_run c s)) (take_run-length c s)) h)
        | inr l ↦ rw (a, b, l) (ap (onto debug layout (literal_char c)) (h s (omega arith)))
      ]
    ]
  ]

  abbrev run : Text → Result debug layout
  run = Rounds.loop (ok []) (round debug layout)

  run-round : (s : Text) → run s ≡ round debug layout run s
  run-round s = Rounds.loop-round (ok []) (round debug layout) round-Shortens s

  letter_is_no_mark :
      (c : ℕ) → is_ascii_alphabetic c ≡ true → ((c == 39) ≡ false) × ((c == 92) ≡ false)
  unfolding is_ascii_alphabetic
  letter_is_no_mark c h = ground arith

  run-token :
      (c n : ℕ) (rest : Text)
      → is_ascii_alphabetic c ≡ true
      → is_known (directive_of (c ∷ repeat n c)) ≡ true
      → begins_with c rest ≡ false
      → run (print_piece (token c n) ++ rest)
        ≡ onto debug layout (chrono_piece (token c n)) (run rest)
  unfolding round lettered
  run-token c n rest a h b =
      let (x, y) = letter_is_no_mark c a in
      run-round (c ∷ repeat n c ++ rest)
      ∙ rw (x, y, a, take_run-repeat c n rest b) (found (directive_of (c ∷ repeat n c)) h)
    where
      found :
          (d : Option Text)
          → is_known d ≡ true
          → lettered debug layout run (c ∷ repeat n c, rest) d
            ≡ onto debug layout (or_nothing d) (run rest)
      found none h = cc
      found (some directive) h = refl

  run-piece :
      (piece : Piece) (rest : Text)
      → is_piece piece rest ≡ true
      → run (print_piece piece ++ rest) ≡ onto debug layout (chrono_piece piece) (run rest)
  unfolding round quoted escaped is_piece
  run-piece (token c n) rest h =
      let (others, apart) =
        both (is_ascii_alphabetic c && is_known (directive_of (c ∷ repeat n c)))
          (not (begins_with c rest)) h in
      let (a, k) = both (is_ascii_alphabetic c) (is_known (directive_of (c ∷ repeat n c))) others in
      run-token c n rest a k (denied (begins_with c rest) apart)
  run-piece (quote s) rest h =
      ap (λ t. run (39 ∷ t)) (append_assoc s (39 ∷ []) rest)
      ∙ run-round (39 ∷ s ++ 39 ∷ rest)
      ∙ rw (split_once-quoted s rest (denied (any (λ c. c == 39) s) h)) refl
  run-piece (escape c) rest h = run-round (92 ∷ c ∷ rest)
  run-piece (other c) rest h =
      let (others, l) = both (not (c == 39) && not (c == 92)) (not (is_ascii_alphabetic c)) h in
      let (a, b) = both (not (c == 39)) (not (c == 92)) others in
      run-round (c ∷ rest)
      ∙ rw (denied (c == 39) a, denied (c == 92) b, denied (is_ascii_alphabetic c) l) refl

  onto-append :
      (a b : Text) (r : Result debug layout)
      → onto debug layout a (onto debug layout b r) ≡ onto debug layout (a ++ b) r
  onto-append a b (ok s) = ap ok (sym (append_assoc a b s))
  onto-append a b (err e) = refl

  run-print :
      (pieces : List Piece) → is_layout pieces ≡ true → run (print pieces) ≡ ok (chrono pieces)
  unfolding print is_layout chrono round
  run-print [] h = run-round []
  run-print (piece ∷ pieces) h =
      run-piece piece (print pieces) (ground arith)
      ∙ ap (onto debug layout (chrono_piece piece)) (run-print pieces (ground arith))

-- A layout of tokens, quoted texts, escaped and other characters translates to the directives of
-- its tokens and the literal text of the others, if no token runs into an equal letter after it.
pub net_layout_to_chrono-print :
    (debug : Text → Text) (pieces : List Piece)
    → is_layout pieces ≡ true
    → net_layout_to_chrono debug (print pieces) ≡ ok (chrono pieces)
unfolding net_layout_to_chrono
net_layout_to_chrono-print debug pieces h = run-print debug (print pieces) pieces h
