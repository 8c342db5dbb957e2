-- ===== src/Filters/Outcomes.antt =====
-- Which filters of crates/oxidarr-cardigann/src/filters.rs fail, and which drop a row.
use oxidarr.Common.{
  any, ◌==◌, filter as keep, [], ◌++◌, All, ◌⊎◌, inl, inr, sym, ◌∙◌, ◌≡◌, refl, Bool, true, false,
  Option, none, some, Text, codes, ℕ, if◌then◌else◌,
}
use oxidarr.Common.Outcome.{Outcome, ok, err, ◌>>=◌, map_err}
use oxidarr.Dates.{Chrono}
use oxidarr.Template as Template
use oxidarr.Template.{CardigannError}
use oxidarr.Filters.{
  Engines, Pattern, fancy, fast, FilterCtx, FilterOutcome, value, drop_row, Filter, re_replace,
  replace, append, prepend, date_parse, time_parse, regexp, query_string, and_match, split, trim,
  time_ago, fuzzy_time, validate, html_decode, valid_filename, url_decode, url_encode, diacritics,
  to_upper, to_lower, replace_all, first_group,
}
use oxidarr.Filters.Unicode.{Unicode}
use oxidarr.Filters.Words as Words
use oxidarr.Filters.Words.Laws.{Contains, and_match_lem}
use oxidarr.Filters.Apply.{apply, or_input, or_empty, split_part}
use oxidarr.Filters.Url.{urlencoding_encode, urlencoding_decode}
use oxidarr.Filters.Html as Html
use oxidarr.Filters.Diacritics.{fold_diacritics}
use oxidarr.Dates.Parse.{parse_net_datetime}
use oxidarr.Dates.Fuzzy.{parse_fuzzy}
use oxidarr.Common.Split as Split
use oxidarr.Common.Str as Str

module _ {I D T L F B : Type 0} (chrono : Chrono I D T L) (engines : Engines F B)
    (unicode : Unicode) (debug : Text → Text) (ctx : FilterCtx I) (input : Text) where
  -- A search has no words, or each required one stands in the input, whatever the case.
  abbrev pub Keeps : Option ℕ → Type 0
  Keeps limit =
      (ctx.keywords ≡ [])
      ⊎ All (λ part. Contains (unicode.to_lowercase input) (unicode.to_lowercase part))
          (Words.required_words unicode ctx.keywords limit)

  -- The outcome is what was found as RFC 3339, or the input if nothing was.
  abbrev pub IsDate : Option I → Outcome CardigannError FilterOutcome → Type 0
  IsDate found r =
      ((found ≡ none) × (r ≡ ok (value input)))
      ⊎ ((i : I) × (found ≡ some i) × (r ≡ ok (value (chrono.to_rfc3339 i))))

  -- The outcome is the text found, or nothing.
  abbrev pub IsGroup : Option Text → Outcome CardigannError FilterOutcome → Type 0
  IsGroup found r =
      ((found ≡ none) × (r ≡ ok (value []))) ⊎ ((s : Text) × (found ≡ some s) × (r ≡ ok (value s)))

  -- What the outcome of each filter is.
  abbrev pub Explains : Filter (Pattern F B) → Outcome CardigannError FilterOutcome → Type 0
  Explains (and_match limit) r =
      (Keeps limit × (r ≡ ok (value input))) ⊎ (¬ (Keeps limit) × (r ≡ ok drop_row))
  Explains (re_replace (fast re) replacement) r =
      r ≡ ok (value (engines.fast_replace_all re input replacement))
  Explains (re_replace (fancy re) replacement) r =
      ((s : Text) × (engines.fancy_try_replacen re input replacement ≡ ok s) × (r ≡ ok (value s)))
      ⊎ ((reason : Text) × (engines.fancy_try_replacen re input replacement ≡ err reason)
          × (r ≡ err (Template.filter (codes "re_replace") reason)))
  Explains (append s) r = r ≡ ok (value (input ++ s))
  Explains (prepend s) r = r ≡ ok (value (s ++ input))
  Explains to_upper r = r ≡ ok (value (unicode.to_uppercase input))
  Explains to_lower r = r ≡ ok (value (unicode.to_lowercase input))
  Explains (date_parse layout) r = IsDate (parse_net_datetime chrono debug layout input ctx.now) r
  Explains (time_parse layout) r = IsDate (parse_net_datetime chrono debug layout input ctx.now) r
  Explains time_ago r = IsDate (parse_fuzzy chrono unicode.to_lowercase input ctx.now) r
  Explains fuzzy_time r = IsDate (parse_fuzzy chrono unicode.to_lowercase input ctx.now) r
  Explains (regexp re) r = IsGroup (first_group engines re input) r
  Explains (replace from to) r = r ≡ ok (value (Split.replace from to input))
  Explains (query_string key) r = r ≡ ok (value (Words.query_param input key))
  Explains (split sep index) r = r ≡ ok (value (split_part sep index input))
  Explains (trim none) r = r ≡ ok (value (Str.trim input))
  Explains (trim (some chars)) r =
      r ≡ ok (value (Words.trim_matches (λ c. any (λ d. d == c) chars) input))
  Explains url_encode r = r ≡ ok (value (urlencoding_encode input))
  Explains url_decode r = r ≡ ok (value (urlencoding_decode input))
  Explains html_decode r = r ≡ ok (value (Html.html_decode input))
  Explains valid_filename r = r ≡ ok (value (keep Words.is_filename_char input))
  Explains diacritics r = r ≡ ok (value (fold_diacritics unicode input))
  Explains (validate whitelist) r =
      r ≡ ok (value (Words.validate_intersect unicode input whitelist))

  Explains-and_match :
      (limit : Option ℕ) (keeps : Bool)
      → Words.and_match unicode input ctx.keywords limit ≡ keeps
      → Explains (and_match limit) (ok (if keeps then value input else drop_row))
  Explains-and_match limit true h = inl ((and_match_lem unicode input ctx.keywords limit).0 h, refl)
  Explains-and_match limit false h = inr (
    λ k.
        absurd (true_is_not_false (sym ((and_match_lem unicode input ctx.keywords limit).1 k) ∙ h)),
    refl,
  )
    where
      true_is_not_false : true ≡ false → ⊥
      true_is_not_false h = cc

  Explains-fancy :
      (re : B) (replacement : Text) (r : Outcome Text Text)
      → engines.fancy_try_replacen re input replacement ≡ r
      → Explains
          (re_replace (fancy re) replacement)
          (map_err (Template.filter (codes "re_replace")) r >>= λ s. ok (value s))
  Explains-fancy re replacement (ok s) h = inl (s, h, refl)
  Explains-fancy re replacement (err reason) h = inr (reason, h, refl)

  dated :
      (found : Option I)
      → IsDate found (ok (value (or_input chrono engines unicode debug input found)))
  dated none = inl (refl, refl)
  dated (some i) = inr (i, refl, refl)

  grouped : (found : Option Text) → IsGroup found (ok (value (or_empty found)))
  grouped none = inl (refl, refl)
  grouped (some s) = inr (s, refl, refl)

  -- An `andmatch` keeps the row where there is no search or the input has each required word, and
  -- drops it otherwise. A `re_replace` gives what its engine gives, and fails with the reason of
  -- the backtracking one if that gives up. The filters of dates give the date that is read, or else
  -- the input as it is. A `regexp` gives the first group, or nothing, and every other filter gives
  -- the value of the function that it is named for.
  pub apply-Explains :
      (filter : Filter (Pattern F B))
      → Explains filter (apply chrono engines unicode debug filter input ctx)
  unfolding apply replace_all
  apply-Explains (and_match limit) =
      Explains-and_match limit (Words.and_match unicode input ctx.keywords limit) refl
  apply-Explains (re_replace (fast re) replacement) = refl
  apply-Explains (re_replace (fancy re) replacement) =
      Explains-fancy re replacement (engines.fancy_try_replacen re input replacement) refl
  apply-Explains (replace from to) = refl
  apply-Explains (append s) = refl
  apply-Explains (prepend s) = refl
  apply-Explains (regexp re) = grouped (first_group engines re input)
  apply-Explains (query_string key) = refl
  apply-Explains (split sep index) = refl
  apply-Explains (trim none) = refl
  apply-Explains (trim (some chars)) = refl
  apply-Explains to_upper = refl
  apply-Explains to_lower = refl
  apply-Explains url_encode = refl
  apply-Explains url_decode = refl
  apply-Explains html_decode = refl
  apply-Explains valid_filename = refl
  apply-Explains diacritics = refl
  apply-Explains (validate whitelist) = refl
  apply-Explains (date_parse layout) = dated _
  apply-Explains (time_parse layout) = dated _
  apply-Explains time_ago = dated _
  apply-Explains fuzzy_time = dated _
