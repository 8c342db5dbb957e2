-- ===== src/Filters/Words/Laws.antt =====
-- What `split`, `validate` and `andmatch` of crates/oxidarr-cardigann/src/filters.rs keep.
use oxidarr.Common.{
  ℕ, suc, ◌-◌, ◌≤◌, ◌<◌, ◌≡◌, ◌↔◌, ◌⊎◌, inl, inr, refl, sym, ap, ◌∙◌, Bool, true, false, Option,
  some, List, [], ◌∷◌, ◌++◌, any, all, filter, Text, codes, text_eq, arith, All, Bool-cases, subst,
}
use oxidarr.Common.Int.{ℤ, pos, negsuc}
use oxidarr.Common.Numerals.{i64_max}
use oxidarr.Common.Unique.{
  text_equality, contains, collect, push_new, unique, collect_empty, any-append,
}
use oxidarr.Common.Split.{starts_with, contains_text, join}
use oxidarr.Filters.Unicode.{Unicode}
use oxidarr.Filters.Words.{
  resolve_split_index, kept_tokens, validate_tokens, validate_intersect, required_words, and_match,
}

-- The index of a part, from the front or from the end.
abbrev pub Denotes : ℤ → ℕ → ℕ → Type 0
Denotes index len k = (index ≡ pos k) ⊎ (index ≡ negsuc (len - suc k))

pos-injective : {m n : ℕ} → pos m ≡ pos n → m ≡ n
pos-injective h = cc

negsuc-injective : {m n : ℕ} → negsuc m ≡ negsuc n → m ≡ n
negsuc-injective h = cc

-- `split` resolves an index to a part exactly when the part exists and the index denotes it,
-- from the front, or as its negative distance to the end.
pub resolve_split_index_lem :
    (index : ℤ) (len k : ℕ)
    → len ≤ i64_max
    → (resolve_split_index index len ≡ some k) ↔ ((k < len) × Denotes index len k)
unfolding resolve_split_index
resolve_split_index_lem (pos i) len k h = ground arith
resolve_split_index_lem (negsuc n) len k h = ground arith

push_new_seen : (kept : List Text) (t : Text) → contains kept t ≡ true → push_new kept t ≡ kept
push_new_seen kept t h = ground (arith, h)

push_new_fresh :
    (kept : List Text) (t : Text) → contains kept t ≡ false → push_new kept t ≡ kept ++ t ∷ []
push_new_fresh kept t h = ground (arith, h)

pushed :
    (seen kept : List Text) (token : Text)
    → ((t : Text) → any (λ s. text_eq s t) seen ≡ contains kept t)
    → (t : Text) → any (λ s. text_eq s t) (token ∷ seen) ≡ contains (kept ++ token ∷ []) t
pushed seen kept token same t =
    ground (arith, same t, any-append (λ s. text_eq s t) kept (token ∷ []))

-- The tokens that were seen are those that were kept.
kept_tokens-collect :
    (data_tokens seen kept allowed : List Text)
    → ((t : Text) → any (λ s. text_eq s t) seen ≡ contains kept t)
    → kept_tokens data_tokens seen kept allowed
      ≡ collect (filter (λ t. any (λ s. text_eq s t) data_tokens) allowed) kept
unfolding kept_tokens
kept_tokens-collect data_tokens seen kept [] same = refl
kept_tokens-collect data_tokens seen kept (token ∷ allowed) same =
    elim (Bool-cases (any (λ s. text_eq s token) data_tokens)) [
      | inl e ↦ elim (Bool-cases (any (λ s. text_eq s token) seen)) [
        | inl f ↦
            let held : contains kept token ≡ true = sym (same token) ∙ f in
            rw (e, f)
              (kept_tokens-collect data_tokens seen kept allowed same
                ∙ ap (collect (filter (λ t. any (λ s. text_eq s t) data_tokens) allowed))
                    (sym (push_new_seen kept token held)))
        | inr f ↦
            let fresh : contains kept token ≡ false = sym (same token) ∙ f in
            rw (e, f)
              (kept_tokens-collect data_tokens (token ∷ seen) (kept ++ token ∷ []) allowed
                  (pushed seen kept token same)
                ∙ ap (collect (filter (λ t. any (λ s. text_eq s t) data_tokens) allowed))
                    (sym (push_new_fresh kept token fresh)))
      ]
      | inr e ↦ rw e (kept_tokens-collect data_tokens seen kept allowed same)
    ]

-- `validate` gives the allowed tokens that the input has, each at its first occurrence in the
-- whitelist, between `, `.
pub validate_intersect_lem :
    (unicode : Unicode) (input whitelist : Text)
    → validate_intersect unicode input whitelist
      ≡ join (codes ", ") (
          unique (
            filter
              (λ t. contains (validate_tokens unicode input) t)
              (validate_tokens unicode whitelist)))
unfolding validate_intersect
validate_intersect_lem unicode input whitelist = ap (join (codes ", ")) (
    kept_tokens-collect (validate_tokens unicode input) [] [] (validate_tokens unicode whitelist)
      (λ t. refl)
    ∙ collect_empty (
        filter (λ t. contains (validate_tokens unicode input) t)
          (validate_tokens unicode whitelist)))

-- `part` stands somewhere in `s`.
abbrev pub Contains : Text → Text → Type 0
Contains s part = (before : Text) × (after : Text) × (s ≡ before ++ part ++ after)

starts_with→eq : (p s : Text) → starts_with p s ≡ true → (after : Text) × (s ≡ p ++ after)
unfolding starts_with
starts_with→eq [] s h = (s, refl)
starts_with→eq (c ∷ p) [] h = cc
starts_with→eq (c ∷ p) (d ∷ s) h =
    let (after, e) = starts_with→eq p s (ground arith) in
    let same : d ≡ c = ground arith in (after, ap (λ x. x ∷ s) same ∙ ap (λ t. c ∷ t) e)

starts_with-append : (p after : Text) → starts_with p (p ++ after) ≡ true
unfolding starts_with
starts_with-append [] after = refl
starts_with-append (c ∷ p) after = ground (arith, starts_with-append p after)

contains_text_sound : (s part : Text) → contains_text s part ≡ true → Contains s part
unfolding contains_text
contains_text_sound [] part h = let (after, e) = starts_with→eq part [] h in ([], after, e)
contains_text_sound (c ∷ s) part h = elim (Bool-cases (starts_with part (c ∷ s))) [
  | inl e ↦ let (after, f) = starts_with→eq part (c ∷ s) e in ([], after, f)
  | inr e ↦
      let (before, after, f) = contains_text_sound s part (ground arith) in
      (c ∷ before, after, ap (λ t. c ∷ t) f)
]

contains_text-start : (s part : Text) → starts_with part s ≡ true → contains_text s part ≡ true
unfolding contains_text
contains_text-start [] part h = h
contains_text-start (c ∷ s) part h = ground (arith, h)

contains_text-append :
    (before part after : Text) → contains_text (before ++ part ++ after) part ≡ true
unfolding contains_text
contains_text-append [] part after =
    contains_text-start (part ++ after) part (starts_with-append part after)
contains_text-append (c ∷ before) part after =
    ground (arith, contains_text-append before part after)

pub contains_text_lem : (s part : Text) → (contains_text s part ≡ true) ↔ Contains s part
contains_text_lem s part = (
  contains_text_sound s part,
  λ (before, after, e).
      subst (λ t. contains_text t part ≡ true) (sym e) (contains_text-append before part after),
)

all_iff {ℓ} :
    {A : Type ℓ} (p : A → Bool) (P : A → Type 0) (xs : List A)
    → ((x : A) → (p x ≡ true) ↔ P x)
    → (all p xs ≡ true) ↔ All P xs
all_iff p P [] h = (λ _. tt, λ _. refl)
all_iff p P (x ∷ xs) h =
    let (to, from) = all_iff p P xs h in
    (λ k. ((h x).0 (ground arith), to (ground arith)), λ (a, b). ground (arith, (h x).1 a, from b))

-- A row passes `andmatch` exactly when there is no search, or each required word stands
-- somewhere in it, whatever the case.
pub and_match_lem :
    (unicode : Unicode) (input : Text) (keywords : List Text) (limit : Option ℕ)
    → (and_match unicode input keywords limit ≡ true) ↔ (
        (keywords ≡ [])
        ⊎ All
            (λ part. Contains (unicode.to_lowercase input) (unicode.to_lowercase part))
            (required_words unicode keywords limit))
unfolding and_match
and_match_lem unicode input [] limit = (λ _. inl refl, λ _. refl)
and_match_lem unicode input (word ∷ words) limit =
    let (to, from) =
      all_iff (λ part. contains_text (unicode.to_lowercase input) (unicode.to_lowercase part)) _
        (required_words unicode (word ∷ words) limit)
        (λ part. contains_text_lem (unicode.to_lowercase input) (unicode.to_lowercase part)) in
    (λ h. inr (to h), λ h. elim h [ inl e ↦ cc | inr k ↦ from k ])
