-- ===== src/Search/Query.antt =====
-- crates/oxidarr-indexer/src/query.rs: a search's parameters, the settings of an indexer, and the scope that the
-- templates of its definition render in. An absent `String` and an empty one are told apart.
use oxidarr.Common.{ℕ, Option, none, some, List, [], ◌∷◌, map, Text, codes, show_nat}
use oxidarr.Common.Ordered.{get, put}
use oxidarr.Common.Str.{split_whitespace}
use oxidarr.Model.{Setting, Definition}
use oxidarr.Template.{Scope, set_keywords, set_config, set_query, set_categories}

pub record SearchQuery : Type 0 where
  pub q : Option Text
  pub imdb_id : Option Text
  pub season : Option ℕ
  pub episode : Option ℕ
  pub categories : List ℕ

-- The values that the user gave, in the order of their names.
abbrev pub Settings : Type 0
Settings = List (Text × Text)

abbrev pub or_default : Option Text → Text
or_default none = []
or_default (some s) = s

abbrev or_else : Option Text → Option Text → Option Text
or_else none other = other
or_else (some s) other = some s

-- `to_lowercase` is a table of Unicode.
unfoldable pub keywords : (Text → Text) → SearchQuery → List Text
unfolding split_whitespace
keywords to_lowercase query = keywords_of query.q
  where
    keywords_of : Option Text → List Text
    keywords_of none = []
    keywords_of (some q) = map to_lowercase (split_whitespace q)

-- The value of one setting.
unfoldable pub setting_value : Settings → Setting → Text
unfolding get
setting_value settings setting = or_default (or_else (get setting.name settings) setting.default)

-- `collect` into a map: of two settings with one name the later counts.
unfoldable pub resolve_onto : Settings → List Setting → List (Text × Text) → List (Text × Text)
unfolding put setting_value
resolve_onto settings [] resolved = resolved
resolve_onto settings (setting ∷ rest) resolved =
    resolve_onto settings rest (put setting.name (setting_value settings setting) resolved)

unfoldable pub resolved : Settings → Definition → List (Text × Text)
unfolding resolve_onto
resolved settings def = resolve_onto settings def.settings []

abbrev pub new_scope : Scope
new_scope = record { keywords = []; config = []; result = []; categories = []; query = [] }

unfoldable pub set_configs : List (Text × Text) → Scope → Scope
unfolding set_config
set_configs [] scope = scope
set_configs ((key, value) ∷ rest) scope = set_configs rest (set_config key value scope)

abbrev decimal : Option ℕ → Text
unfolding show_nat
decimal none = []
decimal (some n) = show_nat n

-- The variables of the query, on a scope with those of the settings.
unfoldable pub set_query_variables : SearchQuery → List Text → Scope → Scope
unfolding set_keywords set_query set_categories decimal
set_query_variables query mapped_categories scope =
    let raw_query = or_default query.q in
    set_categories mapped_categories (
      set_query (codes "Ep") (decimal query.episode) (
        set_query (codes "Season") (decimal query.season) (
          set_query (codes "IMDBID") (or_default query.imdb_id) (
            set_query (codes "Q") raw_query
              (set_query (codes "Keywords") raw_query (set_keywords raw_query scope))))))

unfoldable pub scope_for : Definition → SearchQuery → Settings → List Text → Scope
unfolding resolved set_configs set_query_variables
scope_for def query settings mapped_categories =
    set_query_variables query mapped_categories (set_configs (resolved settings def) new_scope)
