-- ===== src/Sync/Payload.antt =====
-- What crates/oxidarr-prowl/src/sync.rs sends: names, URLs and JSON bodies.
use oxidarr.Common.{
  ℕ, suc, ◌==◌, ◌&&◌, true, Option, none, some, List, [], ◌∷◌, ◌++◌, codes, Text, show_nat,
  if◌then◌else◌,
}
use oxidarr.Common.Int.{ℤ, pos, negsuc}
use oxidarr.Common.Json.{
  Json, bool, int, string, array, object, Items, nil, item, Fields, end, field,
}
use oxidarr.Db.Rows.{IndexerRow}
use oxidarr.Http.{Url}
use oxidarr.Definitions.{is_empty, slash}

-- `Display` of an `i32`.
unfoldable pub show_int : ℤ → Text
show_int (pos n) = show_nat n
show_int (negsuc n) = 45 ∷ show_nat (suc n)

-- `trim_end_matches`
unfoldable pub trim_end_matches : ℕ → Text → Text
trim_end_matches c [] = []
trim_end_matches c (x ∷ xs) =
    let rest = trim_end_matches c xs in if is_empty rest && x == c then [] else x ∷ rest

unfoldable pub display_name : Text → Text
display_name name = name ++ codes " (Oxidarr)"

unfoldable pub torznab_base_url : Url → ℕ → Text
torznab_base_url external_url indexer_id =
    trim_end_matches slash external_url ++ slash ∷ show_nat indexer_id

unfoldable pub numbers : List ℕ → Items
numbers [] = nil
numbers (n ∷ rest) = item (int (pos n)) (numbers rest)

abbrev setting : Text → Json → Json
setting name value = object (field "name" (string name) (field "value" value end))

abbrev payload_fields : Text → Text → List ℕ → Items
payload_fields base_url instance_key categories =
    item (setting (codes "baseUrl") (string base_url)) (
      item (setting (codes "apiPath") (string (codes "/api"))) (
        item (setting (codes "apiKey") (string instance_key))
          (item (setting (codes "categories") (array (numbers categories))) nil)))

-- `obj.insert("id", …)` if there is a remote id.
abbrev with_id : Option ℤ → Fields → Fields
with_id none rest = rest
with_id (some id) rest = field "id" (int id) rest

unfoldable pub build_indexer_payload : IndexerRow → Url → Text → List ℕ → Option ℤ → Json
build_indexer_payload row external_url instance_key categories remote_id = object (
    with_id remote_id (
      field "name" (string (display_name row.name)) (
        field "implementation" (string (codes "Torznab")) (
          field "configContract" (string (codes "TorznabSettings")) (
            field "enableRss" (bool true) (
              field "enableAutomaticSearch" (bool true) (
                field "enableInteractiveSearch" (bool true) (
                  field "priority" (int row.priority) (
                    field "fields"
                      (array (
                        payload_fields (torznab_base_url external_url row.id) instance_key
                          categories))
                      end)))))))))
