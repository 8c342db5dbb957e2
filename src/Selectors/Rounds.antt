-- ===== src/Selectors/Rounds.antt =====
-- The loops of `compile` in crates/oxidarr-cardigann/src/selector.rs end: each round goes on with shorter texts.
use oxidarr.Common.{
  ℕ, suc, ◌+◌, ◌<◌, ◌≤◌, ◌==◌, ◌≡◌, refl, not, ◌&&◌, Option, none, some, [], ◌∷◌, length, Text,
  codes, if◌then◌else◌, arith, Bool-cases, inl, inr,
}
use oxidarr.Common.Outcome.{Outcome}
use oxidarr.Common.Rounds.{loop, loop-round, loop-ends}
use oxidarr.Common.Split.{keep, starts_with}
use oxidarr.Common.Str.{drop}
use oxidarr.Template.{CardigannError, strip_prefix}
use oxidarr.Selectors.{Scraper, Predicates}
use oxidarr.Selectors.Scan.{
  Place, outside, step, deeper, step_escaping, is_outside, is_quote, close_paren,
  find_matching_paren, find_from, find_unquoted,
}
use oxidarr.Selectors.Compile.{
  Marker, contains_marker, has_marker, not_marker, token, mark, marker_at, find_earliest, found_at,
  rewrite_marker, rewrite_round, rewrite, at_paren, at_marker, close_bracket, open_bracket,
  each_bracket,
}

keep-length :
    (c k n : ℕ) (found : Option (Text × Text)) (before after : Text)
    → ((b e : Text) → found ≡ some (b, e) → length b + k + length e ≤ n)
    → keep c found ≡ some (before, after)
    → length before + k + length after ≤ suc n
keep-length c k n none before after h e = cc
keep-length c k n (some (b, a)) before after h e = ground (arith, e, h b a refl)

close_paren-length :
    (depth : ℕ) (place : Place) (s before after : Text)
    → close_paren depth place s ≡ some (before, after)
    → length before + 1 + length after ≤ length s
unfolding close_paren
close_paren-length depth place [] before after h = cc
close_paren-length depth place (c ∷ s) before after h =
    elim (Bool-cases (is_outside place && c == 41 && depth == 1)) [
      | inl e ↦ ground (arith, e, h)
      | inr e ↦
          keep-length c 1 (length s) _ before after
            (close_paren-length (if is_outside place then deeper depth c else depth) (step place c)
              s)
            (rw e at h)
    ]

strip_prefix-length :
    (p s rest : Text) → strip_prefix p s ≡ some rest → length p + length rest ≡ length s
unfolding strip_prefix
strip_prefix-length [] s rest h = ground (arith, h)
strip_prefix-length (c ∷ p) [] rest h = cc
strip_prefix-length (c ∷ p) (d ∷ s) rest h = elim (Bool-cases (c == d)) [
  | inl e ↦ omega (arith, strip_prefix-length p s rest (rw e at h))
  | inr e ↦ ground (arith, e, h)
]

token-length : (m : Marker) → 0 < length (token m)
token-length contains_marker = omega arith
token-length has_marker = omega arith
token-length not_marker = omega arith

-- A marker that stands before a shorter text.
abbrev IsShort : ℕ → Option (Marker × Text) → Type 0
IsShort n none = Unit
IsShort n (some (m, after)) = length after < n

mark-IsShort :
    (s : Text) (m : Marker) (o : Option Text) (later : Option (Marker × Text))
    → strip_prefix (token m) s ≡ o
    → IsShort (length s) later
    → IsShort (length s) (mark m o later)
mark-IsShort s m none later h k = k
mark-IsShort s m (some after) later h k =
    omega (arith, strip_prefix-length (token m) s after h, token-length m)

marker_at-IsShort : (s : Text) → IsShort (length s) (marker_at s)
marker_at-IsShort s =
    mark-IsShort s contains_marker _ _ refl
      (mark-IsShort s has_marker _ _ refl (mark-IsShort s not_marker _ none refl tt))

abbrev behind_marker : Option (Text × (Marker × Text)) → Option (Marker × Text)
behind_marker none = none
behind_marker (some (before, found)) = some found

IsShort-suc : (n : ℕ) (found : Option (Marker × Text)) → IsShort n found → IsShort (suc n) found
IsShort-suc n none h = tt
IsShort-suc n (some (m, after)) h = omega (arith, h)

found_at-IsShort :
    (c n : ℕ) (here : Option (Marker × Text)) (later : Option (Text × (Marker × Text)))
    → IsShort (suc n) here
    → IsShort n (behind_marker later)
    → IsShort (suc n) (behind_marker (found_at c here later))
found_at-IsShort c n (some (m, after)) later h k = h
found_at-IsShort c n none none h k = tt
found_at-IsShort c n none (some (before, (m, after))) h k = omega (arith, k)

find_earliest-IsShort : (s : Text) → IsShort (length s) (behind_marker (find_earliest s))
unfolding find_earliest
find_earliest-IsShort [] = tt
find_earliest-IsShort (c ∷ s) =
    found_at-IsShort c (length s) (marker_at (c ∷ s)) (find_earliest s) (marker_at-IsShort (c ∷ s))
      (find_earliest-IsShort s)

module _ {E C : Type 0} (scraper : Scraper E C) (raw : Text) where
  rewrite_marker-agree :
      (f g : Text → Outcome CardigannError (Text × Predicates C)) (marker : Marker) (arg : Text)
      → f arg ≡ g arg
      → rewrite_marker scraper raw f marker arg ≡ rewrite_marker scraper raw g marker arg
  unfolding rewrite_marker
  rewrite_marker-agree f g contains_marker arg h = refl
  rewrite_marker-agree f g has_marker arg h = rw h refl
  rewrite_marker-agree f g not_marker arg h = rw h refl

  at_paren-agree :
      (f g : Text → Outcome CardigannError (Text × Predicates C)) (before : Text) (marker : Marker)
      (n : ℕ) (found : Option (Text × Text))
      → ((arg rest : Text) → found ≡ some (arg, rest) → length arg + 1 + length rest ≤ n)
      → ((t : Text) → length t < n → f t ≡ g t)
      → at_paren scraper raw f before marker found ≡ at_paren scraper raw g before marker found
  at_paren-agree f g before marker n none h k = refl
  at_paren-agree f g before marker n (some (arg, rest)) h k =
      rw
        (
          rewrite_marker-agree f g marker arg (k arg (omega (arith, h arg rest refl))),
          k rest (omega (arith, h arg rest refl)),
        )
        refl

  at_marker-agree :
      (f g : Text → Outcome CardigannError (Text × Predicates C)) (s : Text)
      (found : Option (Text × (Marker × Text)))
      → IsShort (length s) (behind_marker found)
      → ((t : Text) → length t < length s → f t ≡ g t)
      → at_marker scraper raw f s found ≡ at_marker scraper raw g s found
  unfolding close_paren find_matching_paren
  at_marker-agree f g s none h k = refl
  at_marker-agree f g s (some (before, (marker, after))) h k =
      at_paren-agree f g before marker (length s) (find_matching_paren after)
        (λ arg rest e. omega (arith, h, close_paren-length 1 outside after arg rest e)) k

  -- Every round goes on with shorter texts.
  rewrite_round-shortens :
      (f g : Text → Outcome CardigannError (Text × Predicates C)) (s : Text)
      → ((t : Text) → length t < length s → f t ≡ g t)
      → rewrite_round scraper raw f s ≡ rewrite_round scraper raw g s
  unfolding rewrite_round find_matching_paren
  rewrite_round-shortens f g s k =
      at_marker-agree f g s (find_earliest s) (find_earliest-IsShort s) k

  -- The recursion of `rewrite`, whose fuel is the length of the text, is the one without fuel.
  rewrite-round :
      (s : Text) → rewrite scraper raw s ≡ rewrite_round scraper raw (rewrite scraper raw) s
  unfolding rewrite
  rewrite-round s = loop-round _ (rewrite_round scraper raw) rewrite_round-shortens s

  -- `rewrite` of any text returns: whatever its recursion were to give when it runs out of fuel,
  -- the result is the same.
  pub rewrite-ends :
      (stop : Outcome CardigannError (Text × Predicates C)) (s : Text)
      → loop stop (rewrite_round scraper raw) s ≡ rewrite scraper raw s
  unfolding rewrite
  rewrite-ends stop s = loop-ends (rewrite_round scraper raw) stop _ rewrite_round-shortens s

-- What stands behind the first character of a found needle.
abbrev IsBehind : ℕ → Option (Text × Text) → Type 0
IsBehind n none = Unit
IsBehind n (some (before, from)) = length (drop 1 from) < n

keep-IsBehind : (c n : ℕ) (o : Option (Text × Text)) → IsBehind n o → IsBehind (suc n) (keep c o)
keep-IsBehind c n none h = tt
keep-IsBehind c n (some (before, from)) h = omega (arith, h)

find_from-IsBehind :
    (place : Place) (needle s : Text) → IsBehind (length s) (find_from place needle s)
unfolding find_from drop
find_from-IsBehind place needle [] = tt
find_from-IsBehind place needle (c ∷ s) =
    elim (Bool-cases
      (is_outside place && not (c == 92) && not (is_quote c) && starts_with needle (c ∷ s))) [
        | inl e ↦ rw e (drop_none s)
        | inr e ↦
            rw e
              (keep-IsBehind c (length s) _ (find_from-IsBehind (step_escaping place c) needle s))
      ]
  where
    drop_none : (s : Text) → length (drop 0 s) < suc (length s)
    drop_none [] = omega arith
    drop_none (c ∷ s) = omega arith

module _ (change : Text → Text) where
  close_bracket-agree :
      (f g : Text → Text) (before after : Text) (n : ℕ) (found : Option (Text × Text))
      → IsBehind n found
      → ((t : Text) → length t < n → f t ≡ g t)
      → close_bracket change f before after found ≡ close_bracket change g before after found
  close_bracket-agree f g before after n none h k = refl
  close_bracket-agree f g before after n (some (body, from)) h k = rw (k (drop 1 from) h) refl

  open_bracket-agree :
      (f g : Text → Text) (s : Text) (n : ℕ) (found : Option (Text × Text))
      → IsBehind n found
      → ((t : Text) → length t < n → f t ≡ g t)
      → open_bracket change f s found ≡ open_bracket change g s found
  unfolding find_unquoted
  open_bracket-agree f g s n none h k = refl
  open_bracket-agree f g s n (some (before, from)) h k =
      close_bracket-agree f g before (drop 1 from) (length (drop 1 from)) _
        (find_from-IsBehind outside (codes "]") (drop 1 from)) (λ t lt. k t (omega (arith, lt, h)))

  -- The loop over the bracketed parts of a selector is the one without a bound on its rounds.
  each_bracket-round :
      (s : Text)
      → each_bracket change s
        ≡ open_bracket change (each_bracket change) s (find_unquoted s (codes "["))
  unfolding each_bracket find_unquoted
  each_bracket-round s =
      loop-round [] (λ rec t. open_bracket change rec t (find_unquoted t (codes "[")))
        (λ f g t k.
          open_bracket-agree f g t (length t) _ (find_from-IsBehind outside (codes "[") t) k)
        s
