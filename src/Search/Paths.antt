-- ===== src/Search/Paths.antt =====
-- Which paths a search goes to, in crates/oxidarr-indexer/src/builder.rs.
use oxidarr.Common.{
  String, Bool, true, ◌||◌, Option, none, some, List, [], ◌∷◌, any, filter, str_eq, if◌then◌else◌,
  Text,
}
use oxidarr.Model.{Definition, Search, SearchPath}
use oxidarr.CategoryMap.{from_definition, to_tracker}
use oxidarr.Template.{is_empty}
use oxidarr.Search.Query.{SearchQuery}

abbrev or_defaults : List String → List String → List String
or_defaults defaults [] = defaults
or_defaults defaults (id ∷ ids) = id ∷ ids

unfoldable pub mapped_categories : Definition → SearchQuery → List String
unfolding from_definition to_tracker
mapped_categories def query =
    let map = from_definition def.categorymappings in
    or_defaults map.defaults (to_tracker map query.categories)

abbrev only_path : Option Text → List SearchPath
only_path none = []
only_path (some path) =
    record {
      path = path;
      method = none;
      inputs = [];
      categories = [];
      response = none;
      followredirect = none;
    }
    ∷ []

abbrev or_only : Option Text → List SearchPath → List SearchPath
or_only path [] = only_path path
or_only path (p ∷ paths) = p ∷ paths

unfoldable pub effective_paths : Search → List SearchPath
effective_paths search = or_only search.path search.paths

unfoldable pub is_reachable : SearchPath → List String → Bool
is_reachable path mapped =
    if is_empty path.categories || is_empty mapped
    then true
    else any (λ m. any (λ c. str_eq c m) path.categories) mapped

-- The paths that a search goes to.
unfoldable pub searched_paths : Definition → SearchQuery → List SearchPath
unfolding effective_paths is_reachable mapped_categories
searched_paths def query =
    filter (λ path. is_reachable path (mapped_categories def query)) (effective_paths def.search)
