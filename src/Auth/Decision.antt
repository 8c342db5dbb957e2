-- ===== src/Auth/Decision.antt =====
-- `require_api_key` of crates/oxidarr-http/src/auth.rs: which requests reach the handler.
use oxidarr.Common.{
  ℕ, ◌≡◌, ◌⊎◌, inl, inr, refl, sym, ap, ◌∙◌, true, false, Option, none, some, List, [], ◌∷◌, ◌++◌,
  All, find, Text, codes, text_eq, text_eq→eq, text_eq_refl, Bool-cases,
}
use oxidarr.Auth.{
  Parsers, Request, Problem, and_then, or_else, first_query_value, provided, require_api_key,
}
use oxidarr.Auth.Compare.{constant_time_eq-text_eq}

-- The first value of a name: no pair before it has the name.
abbrev pub IsFirst : Text → Text → List (Text × Text) → Type 0
IsFirst name v pairs =
    (before : List (Text × Text)) × (after : List (Text × Text)) × (pairs
      ≡ before ++ (name, v) ∷ after)
    × All (λ pair. text_eq pair.0 name ≡ false) before

abbrev value_of : Option (Text × Text) → Option Text
value_of found = and_then found (λ pair. some pair.1)

IsFirst-found :
    (name : Text) (pairs : List (Text × Text)) (v : Text)
    → value_of (find (λ pair. text_eq pair.0 name) pairs) ≡ some v
    → IsFirst name v pairs
IsFirst-found name [] v h = absurd (none_is_not_some h)
  where
    none_is_not_some : ◌≡◌ {A = Option Text} none (some v) → ⊥
    none_is_not_some h = cc
IsFirst-found name ((k, w) ∷ pairs) v h = elim (Bool-cases (text_eq k name)) [
  | inl e ↦
      let same : w ≡ v = some_injective (rw e at h) in
      ([], pairs, ap (λ x. x ∷ pairs) (pair_eq (text_eq→eq k name e) same), tt)
  | inr e ↦
      let (before, after, eq, others) = IsFirst-found name pairs v (rw e at h) in
      ((k, w) ∷ before, after, ap (λ t. (k, w) ∷ t) eq, (e, others))
]
  where
    some_injective : {a b : Text} → ◌≡◌ {A = Option Text} (some a) (some b) → a ≡ b
    some_injective h = cc

    pair_eq : {a b c d : Text} → a ≡ b → c ≡ d → ◌≡◌ {A = Text × Text} (a, c) (b, d)
    pair_eq h k = cc

find-first :
    (name : Text) (before after : List (Text × Text)) (v : Text)
    → All (λ pair. text_eq pair.0 name ≡ false) before
    → find (λ pair. text_eq pair.0 name) (before ++ (name, v) ∷ after) ≡ some (name, v)
find-first name [] after v h = rw (text_eq_refl name) refl
find-first name ((k, w) ∷ before) after v h = rw h.0 (find-first name before after v h.1)

module _ (parsers : Parsers) (request : Request) where
  -- The header is there, and is a text.
  abbrev pub HasHeader : Text → Type 0
  HasHeader v =
      (bytes : List ℕ) × (request.header (codes "x-api-key") ≡ some bytes)
      × (parsers.to_str bytes ≡ some v)

  -- The header is absent, or is no text.
  abbrev pub LacksHeader : Type 0
  LacksHeader =
      (request.header (codes "x-api-key") ≡ none)
      ⊎ ((bytes : List ℕ) × (request.header (codes "x-api-key") ≡ some bytes)
          × (parsers.to_str bytes ≡ none))

  abbrev pub HasParameter : Text → Type 0
  HasParameter v =
      (q : Text) × (request.query ≡ some q) × IsFirst (codes "apikey") v (parsers.parse_query q)

  -- A key is presented by the header, or else by the first query parameter.
  abbrev pub Presents : Text → Type 0
  Presents v = HasHeader v ⊎ (LacksHeader × HasParameter v)

  first_query-some :
      (v : Text)
      → HasParameter v
      → first_query_value parsers request.query (codes "apikey") ≡ some v
  unfolding first_query_value
  first_query-some v (q, e, (before, after, eq, others)) =
      rw (e, eq, find-first (codes "apikey") before after v others) refl

  provided-Presents : (v : Text) → Presents v → provided parsers request ≡ some v
  unfolding provided
  provided-Presents v (inl (bytes, e, t)) = rw (e, t) refl
  provided-Presents v (inr (inl e, parameter)) = rw e (first_query-some v parameter)
  provided-Presents v (inr (inr (bytes, e, t), parameter)) =
      rw (e, t) (first_query-some v parameter)

  parameter_of :
      (v : Text) (query : Option Text)
      → request.query ≡ query
      → first_query_value parsers query (codes "apikey") ≡ some v
      → HasParameter v
  unfolding first_query_value
  parameter_of v none e h = cc
  parameter_of v (some q) e h = (q, e, IsFirst-found (codes "apikey") (parsers.parse_query q) v h)

  of_header :
      (v : Text) (header : Option (List ℕ))
      → request.header (codes "x-api-key") ≡ header
      → or_else
          (and_then header parsers.to_str)
          (first_query_value parsers request.query (codes "apikey"))
        ≡ some v
      → Presents v
  of_header v none e h = inr (inl e, parameter_of v request.query refl h)
  of_header v (some bytes) e h = of_text (parsers.to_str bytes) refl
    where
      of_text : (text : Option Text) → parsers.to_str bytes ≡ text → Presents v
      of_text none t = inr (inr (bytes, e, t), parameter_of v request.query refl (rw t at h))
      of_text (some w) t = inl (bytes, e, t ∙ (rw t at h))

  Presents-provided : (v : Text) → provided parsers request ≡ some v → Presents v
  unfolding provided
  Presents-provided v h = of_header v (request.header (codes "x-api-key")) refl h

module _ {A : Type 0} (parsers : Parsers) (key : Text) (next : Request → A) (respond : Problem → A)
    (request : Request) where
  -- What becomes of a request, with the problem of a refusal.
  abbrev pub Decided : Type 0
  Decided =
      (Presents parsers request key
        × (require_api_key parsers key next respond request ≡ next request))
      ⊎ (¬ (Presents parsers request key)
          × (require_api_key parsers key next respond request
              ≡ respond (record { status = 401; message = codes "missing or invalid API key" })))

  decided : (candidate : Option Text) → provided parsers request ≡ candidate → Decided
  unfolding require_api_key
  decided none e = inr (λ p. absurd (nothing (provided-Presents parsers request key p)), rw e refl)
    where
      nothing : provided parsers request ≡ some key → ⊥
      nothing h = cc
  decided (some c) e = elim (Bool-cases (text_eq c key)) [
    | inl same ↦ inl (
      Presents-provided parsers request key (e ∙ ap some (text_eq→eq c key same)),
      rw (e, constant_time_eq-text_eq c key, same) refl,
    )
    | inr other ↦ inr (
      λ p. absurd (differs other (provided-Presents parsers request key p)),
      rw (e, constant_time_eq-text_eq c key, other) refl,
    )
  ]
    where
      differs : text_eq c key ≡ false → provided parsers request ≡ some key → ⊥
      differs other h = absurd (
          true_is_not_false
            (sym (text_eq_refl key) ∙ ap (λ k. text_eq k key) (some_injective (sym h ∙ e)) ∙ other))
        where
          some_injective : {a b : Text} → ◌≡◌ {A = Option Text} (some a) (some b) → a ≡ b
          some_injective h = cc

          true_is_not_false : true ≡ false → ⊥
          true_is_not_false h = cc

  -- A request that presents the configured key goes to the handler as it is, and any other gets
  -- the 401 problem. A key is presented by the `X-Api-Key` header, or, if that is absent or no
  -- text, by the first `apikey` parameter of the query.
  pub require_api_key-Decided : Decided
  require_api_key-Decided = decided (provided parsers request) refl
