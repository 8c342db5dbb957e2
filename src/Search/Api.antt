-- ===== src/Search/Api.antt =====
-- The URL of a search at a Newznab or Torznab indexer, in crates/oxidarr-indexer/src/indexer.rs.
use oxidarr.Common.{
  ℕ, ◌==◌, ◌≡◌, refl, Bool, true, false, ◌&&◌, ◌||◌, Option, none, some, List, [], ◌∷◌, map, Text,
  text_eq, text_eq→eq, codes, Bool-cases, inl, inr, sym, ap, ◌∙◌, show_nat, if◌then◌else◌,
}
use oxidarr.Common.Ordered.{get}
use oxidarr.Common.Split.{join}
use oxidarr.Dates.Fuzzy.{strip_suffix}
use oxidarr.Http.{Url}
use oxidarr.Search.Query.{SearchQuery}

-- The `url` crate: `set_query(None)`, `path`, and `path_segments_mut` with `pop_if_empty` and
-- `push`, which leaves a URL that cannot be a base as it is, and `append_pair` for each pair.
pub record ApiUrls : Type 0 where
  pub without_query : Url → Url
  pub path : Url → Text
  pub push_segment : Text → Url → Url
  pub append_pairs : List (Text × Text) → Url → Url

abbrev cons_trimmed : ℕ → Text → Text
cons_trimmed c [] = if c == 47 then [] else c ∷ []
cons_trimmed c (d ∷ s) = c ∷ d ∷ s

-- `trim_end_matches('/')`
unfoldable trim_slashes : Text → Text
trim_slashes [] = []
trim_slashes (c ∷ s) = cons_trimmed c (trim_slashes s)

abbrev is_some : Option Text → Bool
is_some none = false
is_some (some s) = true

unfoldable pub api_url : ApiUrls → Url → Url
unfolding trim_slashes strip_suffix
api_url urls base =
    let url = urls.without_query base in
    if is_some (strip_suffix (codes "/api") (trim_slashes (urls.path url)))
    then url
    else urls.push_segment (codes "api") url

abbrev is_t : ℕ → Bool
is_t c = c == 116 || c == 84

unfoldable pub strip_tt_prefix : Text → Text
strip_tt_prefix (a ∷ b ∷ s) = if is_t a && is_t b then s else a ∷ b ∷ s
strip_tt_prefix s = s

abbrev search_type : Option ℕ → Option ℕ → Text
search_type none none = codes "search"
search_type season episode = codes "tvsearch"

abbrev categories_of : List ℕ → Option (List ℕ)
categories_of [] = none
categories_of (id ∷ ids) = some (id ∷ ids)

unfoldable pub show_ids : List ℕ → Text
unfolding show_nat join
show_ids ids = join (codes ",") (map show_nat ids)

abbrev pub shown : {B : Type 0} → (B → Text) → Option B → Option Text
shown show none = none
shown show (some b) = some (show b)

-- The parameters that may be appended, in their order.
abbrev pub parameters : SearchQuery → Option Text → List (Text × Option Text)
parameters query apikey =
    (codes "t", some (search_type query.season query.episode))
    ∷ (codes "q", query.q)
    ∷ (codes "imdbid", shown strip_tt_prefix query.imdb_id)
    ∷ (codes "season", shown show_nat query.season)
    ∷ (codes "ep", shown show_nat query.episode)
    ∷ (codes "cat", shown show_ids (categories_of query.categories))
    ∷ (codes "apikey", apikey)
    ∷ []

unfoldable pub present : List (Text × Option Text) → List (Text × Text)
present [] = []
present ((name, none) ∷ rest) = present rest
present ((name, some value) ∷ rest) = (name, value) ∷ present rest

unfoldable pub search_pairs : SearchQuery → Option Text → List (Text × Text)
unfolding present
search_pairs query apikey = present (parameters query apikey)

unfoldable pub build_url : ApiUrls → Url → SearchQuery → Option Text → Url
unfolding api_url search_pairs
build_url urls base query apikey = urls.append_pairs (search_pairs query apikey) (api_url urls base)

abbrev pub flat : Option (Option Text) → Option Text
flat none = none
flat (some o) = o

-- No name twice.
abbrev HasDistinctNames : List (Text × Option Text) → Type 0
HasDistinctNames [] = Unit
HasDistinctNames ((name, o) ∷ rest) = (get name rest ≡ none) × HasDistinctNames rest

get-present :
    (key : Text) (slots : List (Text × Option Text))
    → HasDistinctNames slots
    → get key (present slots) ≡ flat (get key slots)
unfolding get present
get-present key [] d = refl
get-present key ((name, some value) ∷ rest) d = elim (Bool-cases (text_eq name key)) [
  | inl e ↦ rw e refl
  | inr e ↦ rw e (get-present key rest d.1)
]
get-present key ((name, none) ∷ rest) d = elim (Bool-cases (text_eq name key)) [
  | inl e ↦ rw e (
      get-present key rest d.1 ∙ ap flat (ap (λ k. get k rest) (sym (text_eq→eq name key e)) ∙ d.0))
  | inr e ↦ rw e (get-present key rest d.1)
]

parameters-distinct :
    (query : SearchQuery) (apikey : Option Text) → HasDistinctNames (parameters query apikey)
unfolding get
parameters-distinct query apikey = (refl, (refl, (refl, (refl, (refl, (refl, (refl, tt)))))))

-- A parameter of a search has the value that its query gives: the kind of search, the text, the
-- IMDb id without its `tt`, the season and the episode, the categories if there are any, and the
-- key. What the query lacks has no parameter.
pub get-search_pairs :
    (query : SearchQuery) (apikey : Option Text) (name : Text)
    → get name (search_pairs query apikey) ≡ flat (get name (parameters query apikey))
unfolding search_pairs
get-search_pairs query apikey name =
    get-present name (parameters query apikey) (parameters-distinct query apikey)
