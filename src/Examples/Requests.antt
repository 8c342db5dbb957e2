-- ===== src/Examples/Requests.antt =====
-- The theorems on categories, definitions and the API key, at concrete inputs.
use oxidarr.Common.{
  ℕ, ◌≡◌, ◌↔◌, refl, true, false, Option, none, some, List, [], ◌∷◌, codes, map, find, ◌==◌,
  text_eq, Memᴰ, String,
}
use oxidarr.Common.Unique.{contains, string_eq, nat_eq}
use oxidarr.Common.Outcome.{ok, err}
use oxidarr.Categories.{by_id, parent_of, block_of}
use oxidarr.Categories.Table.{categories}
use oxidarr.Categories.Search.{lookup_by, binary_search, search_loop, ascending}
use oxidarr.Categories.Lookup as Category
use oxidarr.Model.{CategoryMapping}
use oxidarr.CategoryMap.{CategoryMap, Entry, to_tracker, newznab_ids}
use oxidarr.CategoryMap.Lookup.{Wanted}
use oxidarr.CategoryMap.Lookup as Lookup
use oxidarr.CategoryMap.Ids as Ids
use oxidarr.Definitions.{
  Store, invalid_id, get, validate_id, is_plain_stem, contains_pair, path_of, cached, held_or_load,
  load_and_insert, load_definition, loaded, parsed, cache_insert, or_insert,
}
use oxidarr.Definitions.Guard.{ReadsOnly}
use oxidarr.Definitions.Guard as Guard
use oxidarr.Auth.{Parsers, Request, constant_time_eq}
use oxidarr.Auth.Compare as Compare
use oxidarr.Auth.Decision as Decision
use oxidarr.Auth.Decision.{Decided}
use oxidarr.Examples.Data.{movies, files, store}

by_id-eq-find_example : by_id 5040 ≡ find (λ c. c.id == 5040) categories
by_id-eq-find_example = Category.by_id-eq-find 5040

parent_of_5040 : parent_of 5040 ≡ some 5000
unfolding parent_of by_id lookup_by binary_search search_loop block_of
parent_of_5040 = refl

abbrev rows : List CategoryMapping
rows =
    record { id = "1"; cat = "Movies/HD"; desc = "HD"; default = true }
    ∷ record { id = "2"; cat = "TV"; desc = "TV"; default = false }
    ∷ record { id = "1"; cat = "Movies/SD"; desc = "SD"; default = true }
    ∷ []

abbrev entry : String → ℕ → Entry
entry t n = record { tracker_id = t; newznab_id = n }

abbrev cat_map : CategoryMap
cat_map = record {
  entries = entry "1" 2040 ∷ entry "2" 5000 ∷ entry "1" 2030 ∷ [];
  defaults = "1" ∷ [];
}

mem-to_tracker_example :
    Memᴰ "1" (to_tracker cat_map (2000 ∷ []))
    ↔ ((e : Entry) × Memᴰ e cat_map.entries × Wanted (2000 ∷ []) e × (e.tracker_id ≡ "1"))
mem-to_tracker_example = Lookup.mem-to_tracker cat_map (2000 ∷ []) "1"

newznab_ids_lem_example :
    (ascending (newznab_ids cat_map) ≡ true)
    × ((n : ℕ)
        → contains (newznab_ids cat_map) n ≡ contains (map (λ e. e.newznab_id) cat_map.entries) n)
newznab_ids_lem_example = Ids.newznab_ids_lem cat_map

abbrev loaded_store : Store
loaded_store = (get files (codes "tracker") store).1

loads : get files (codes "tracker") store ≡ (ok movies, loaded_store)
unfolding get validate_id is_plain_stem contains_pair path_of cached held_or_load load_and_insert
    load_definition loaded parsed cache_insert or_insert
loads = refl

get-reads_example : ReadsOnly (codes "../etc") store (get files (codes "../etc") store).1
get-reads_example = Guard.get-reads files (codes "../etc") store

tracker_valid : validate_id (codes "tracker") ≡ ok tt
unfolding validate_id is_plain_stem contains_pair
tracker_valid = refl

refused :
    get files (codes "../etc") loaded_store ≡ (err (invalid_id (codes "../etc")), loaded_store)
unfolding get validate_id is_plain_stem contains_pair
refused = refl

constant_time_eq-text_eq_example :
    constant_time_eq (1 ∷ 2 ∷ []) (1 ∷ 2 ∷ 0 ∷ []) ≡ text_eq (1 ∷ 2 ∷ []) (1 ∷ 2 ∷ 0 ∷ [])
constant_time_eq-text_eq_example = Compare.constant_time_eq-text_eq (1 ∷ 2 ∷ []) (1 ∷ 2 ∷ 0 ∷ [])

-- A header value is visible ASCII here, and a query has one parameter, `apikey`.
abbrev parsers : Parsers
parsers = record { to_str = some; parse_query = λ q. (codes "apikey", q) ∷ [] }

abbrev by_query : Request
by_query = record { header = λ name. none; query = some (codes "s3cret") }

require_api_key-Decided_example :
    Decided {A = Option Request} parsers (codes "s3cret") (λ r. some r) (λ p. none) by_query
require_api_key-Decided_example =
    Decision.require_api_key-Decided parsers (codes "s3cret") (λ r. some r) (λ p. none) by_query
