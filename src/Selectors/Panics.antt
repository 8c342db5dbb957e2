-- ===== src/Selectors/Panics.antt =====
-- Where `compile` of crates/oxidarr-cardigann/src/selector.rs slices a text in the middle of a character.
use oxidarr.Common.{
  ℕ, zero, suc, ◌<◌, ◌≤◌, ◌==◌, ◌≡◌, ◌≢◌, refl, sym, subst, Bool, true, false, any, text_eq, Option,
  none, some, [], ◌∷◌, length, Text, codes, if◌then◌else◌, arith,
}
use oxidarr.Common.Outcome.{Outcome, ok, err}
use oxidarr.Common.Halt.{panicked, raising}
use oxidarr.Common.Rounds.{loop-round}
use oxidarr.Common.Split.{split_once, split_once-length}
use oxidarr.Common.Str.{trim}
use oxidarr.Template.{strip_prefix, is_empty}
use oxidarr.Filters.Unicode.{Unicode}
use oxidarr.Selectors.{Scraper}
use oxidarr.Selectors.JsonPath.{
  Round, returns, goes_on, panics, ident_len, path_step, path_next, is_path_tail, is_json_path,
  of_root, of_descent,
}
use oxidarr.Selectors.Compile.{compile_css, compile, of_json_path}
use oxidarr.Selectors.Slices.{
  IsAscii, IsFine, IsFine-if, IsShorter, IsShorter-if, OfText, after_index-IsFine,
  after_index-IsShorter, at_word, slice_from-IsFine, split_once-OfRest, strip_prefix-OfText,
  trim-IsAscii,
}

raising-panics : {E A : Type 0} (r : Outcome E A) → raising r ≢ err panicked
raising-panics (ok a) e = cc
raising-panics (err x) e = cc

module _ (unicode : Unicode) where
  path_step-IsShorter : (s : Text) → IsShorter (length s) (path_step unicode s)
  unfolding path_step
  path_step-IsShorter [] = tt
  path_step-IsShorter (c ∷ s) = IsShorter-if (suc (length s)) (c == 46) _ _ (omega arith) (
      IsShorter-if (suc (length s)) (c == 91) _ _
        (after_index-IsShorter (suc (length s)) (split_once 93 s)
          (λ b t e. omega (arith, split_once-length 93 s b t e)))
        (at_word (ident_len unicode (c ∷ s)) 0 c s))

  path_next-agree :
      (f g : Text → Option Bool) (n : ℕ) (r : Round)
      → IsShorter n r
      → ((t : Text) → length t < n → f t ≡ g t)
      → path_next unicode f r ≡ path_next unicode g r
  path_next-agree f g n (returns b) h k = refl
  path_next-agree f g n (goes_on s) h k = k s h
  path_next-agree f g n panics h k = refl

  is_path_tail-round :
      (s : Text)
      → is_path_tail unicode s ≡ path_next unicode (is_path_tail unicode) (path_step unicode s)
  unfolding is_path_tail
  is_path_tail-round s =
      loop-round none (λ rec t. path_next unicode rec (path_step unicode t))
        (λ f g t k. path_next-agree f g (length t) (path_step unicode t) (path_step-IsShorter t) k)
        s

  ident_len-le : (s : Text) → ident_len unicode s ≤ length s
  unfolding ident_len
  ident_len-le [] = omega arith
  ident_len-le (c ∷ s) = ground (arith, ident_len-le s)

  path_step-IsFine : (s : Text) → IsAscii s → IsFine (path_step unicode s)
  unfolding path_step
  path_step-IsFine [] a = tt
  path_step-IsFine (c ∷ s) a = IsFine-if (c == 46) _ _ a.1 (
      IsFine-if (c == 91) _ _ (after_index-IsFine (split_once 93 s) (split_once-OfRest s a.1)) (
        IsFine-if (ident_len unicode (c ∷ s) == 0) _ _ tt
          (slice_from-IsFine (ident_len unicode (c ∷ s)) (c ∷ s) a (ident_len-le (c ∷ s)))))

  -- A value where the code does not panic.
  abbrev Returns : Option Bool → Type 0
  Returns none = ⊥
  Returns (some b) = Unit

  path_next-Returns :
      (n : ℕ) (r : Round)
      → IsShorter n r
      → IsFine r
      → ((t : Text) → length t < n → IsAscii t → Returns (is_path_tail unicode t))
      → Returns (path_next unicode (is_path_tail unicode) r)
  path_next-Returns n (returns b) h a k = tt
  path_next-Returns n (goes_on s) h a k = k s h a
  path_next-Returns n panics h a k = elim a [ ]

  path_tail-Returns :
      (n : ℕ) (s : Text) → length s < n → IsAscii s → Returns (is_path_tail unicode s)
  path_tail-Returns zero s h a = absurd (omega (arith, h))
  path_tail-Returns (suc n) s h a = subst Returns (sym (is_path_tail-round s)) (
      path_next-Returns (length s) (path_step unicode s) (path_step-IsShorter s)
        (path_step-IsFine s a) (λ t lt b. path_tail-Returns n t (omega (arith, lt, h)) b))

  is_path_tail-Returns : (s : Text) → IsAscii s → Returns (is_path_tail unicode s)
  is_path_tail-Returns s a = path_tail-Returns (suc (length s)) s (omega arith) a

  Returns-if :
      (b : Bool) (o o' : Option Bool) → Returns o → Returns o' → Returns (if b then o else o')
  Returns-if true o o' h k = h
  Returns-if false o o' h k = k

  of_root-Returns :
      (s : Text) (o : Option Text) → IsAscii s → OfText o → Returns (of_root unicode s o)
  of_root-Returns s none a h =
      Returns-if (any (λ c. c == 91) s) (is_path_tail unicode s) (some false)
        (is_path_tail-Returns s a) tt
  of_root-Returns s (some tail) a h =
      Returns-if (is_empty tail) (some false) (is_path_tail unicode tail) tt
        (is_path_tail-Returns tail h)

  of_descent-Returns : (s : Text) (o : Option Text) → IsAscii s → Returns (of_descent unicode s o)
  of_descent-Returns s none a =
      of_root-Returns s (strip_prefix (codes "$") s) a (strip_prefix-OfText (codes "$") s a)
  of_descent-Returns s (some rest) a = tt

  is_json_path-Returns : (s : Text) → IsAscii s → Returns (is_json_path unicode s)
  unfolding is_json_path
  is_json_path-Returns s a =
      Returns-if (text_eq s (codes "$")) (some true)
        (of_descent unicode s (strip_prefix (codes "..") s)) tt
        (of_descent-Returns s (strip_prefix (codes "..") s) a)

  -- A selector of ASCII characters compiles without a panic.
  pub compile-panics :
      {E C : Type 0} (scraper : Scraper E C) (raw : Text)
      → IsAscii raw
      → compile scraper unicode raw ≢ err panicked
  unfolding compile
  compile-panics scraper raw a =
      go (is_json_path unicode (trim raw)) (is_json_path-Returns (trim raw) (trim-IsAscii raw a))
    where
      go : (o : Option Bool) → Returns o → of_json_path scraper raw o ≢ err panicked
      go none h e = elim h [ ]
      go (some true) h e = cc
      go (some false) h e = raising-panics (compile_css scraper raw) e
