-- ===== src/Examples/Extractions.antt =====
-- The theorems on extraction, at a page of two rows.
use oxidarr.Common.{ℕ, ◌≡◌, refl, none, some, List, [], ◌∷◌, Text, codes, is_whitespace}
use oxidarr.Common.Outcome.{ok}
use oxidarr.Filters.{FilterCtx}
use oxidarr.Model.{Definition, Field, no_args}
use oxidarr.Template.{Scope}
use oxidarr.Template.Tokens.{tokenize}
use oxidarr.Search.Query.{new_scope, set_configs}
use oxidarr.Extraction.{evaluate_fields}
use oxidarr.Extraction.Release.{Release, Readers, build_release}
use oxidarr.Extraction.Rows.{extract}
use oxidarr.Extraction.Outcomes as Outcomes
use oxidarr.Extraction.Outcomes.{Agrees, IsExtraction}
use oxidarr.Extraction.Size.{parse_size, cleaned}
use oxidarr.Extraction.Exact as Exact
use oxidarr.Extraction.Exact.{IsExact}
use oxidarr.CategoryMap.{from_definition}
use oxidarr.Examples.Filters.{ctx}
use oxidarr.Examples.Searches.{def, urls}
use oxidarr.Examples.Pages.{page, lib_of, below, texts}

abbrev readers : Readers ℕ ℕ
readers = record {
  parse_f32 = λ s. none;
  neutral = 1;
  parse_from_rfc3339 = λ s. none;
  to_uppercase = λ s. s;
}

abbrev empty_field : Field
empty_field = record {
  selector = none;
  attribute = none;
  text = none;
  filters = [];
  case = none;
  default = none;
  remove = none;
}

-- The title filters rows by the keywords; the details refer to the title.
abbrev fields : List (Text × Field)
fields =
    (
      codes "title",
      record empty_field {
        selector = some (codes "b");
        filters = record { name = codes "andmatch"; args = no_args } ∷ [];
      },
    )
    ∷ (codes "size", record empty_field { selector = some (codes "i") })
    ∷ (codes "details", record empty_field { text = some (codes "/t/{{ .Result.title }}") })
    ∷ []

abbrev tracker : Definition
tracker = record def {
  search = record def.search {
    fields = fields;
    rows = record { selector = codes "tr"; after = none };
  };
}

abbrev lower_ctx : FilterCtx ℕ
lower_ctx = record { now = 0; keywords = codes "dune" ∷ [] }

abbrev values : List (Text × Text)
values =
    (codes "details", codes "/t/Dune")
    ∷ (codes "size", codes "1.5 KB")
    ∷ (codes "title", codes "Dune")
    ∷ []

abbrev releases : List (Release ℕ ℕ)
releases =
    build_release readers urls values (from_definition tracker.categorymappings)
      (codes "https://example.org/")
    ∷ []

extracted :
    extract (lib_of page) readers urls tracker [] [] lower_ctx (codes "https://example.org/")
    ≡ ok releases
unfolding extract below texts tokenize is_whitespace
extracted = refl

extract-IsExtraction_example :
    IsExtraction
      (lib_of page)
      readers
      urls
      tracker
      []
      []
      lower_ctx
      (codes "https://example.org/")
      releases
extract-IsExtraction_example =
    Outcomes.extract-IsExtraction (lib_of page) readers urls tracker [] [] lower_ctx
      (codes "https://example.org/") releases extracted

abbrev scope : Scope
scope = record (set_configs [] new_scope) { result = (codes "title", codes "Dune") ∷ [] }

one_field :
    evaluate_fields
      (lib_of page)
      ((codes "title", record empty_field { text = some (codes "Dune") }) ∷ [])
      page
      ctx
      (set_configs [] new_scope)
      []
    ≡ ok (some (scope, (codes "title", codes "Dune") ∷ []))
unfolding evaluate_fields tokenize is_whitespace set_configs
one_field = refl

evaluate_fields-Agrees_example : Agrees scope ((codes "title", codes "Dune") ∷ [])
evaluate_fields-Agrees_example =
    Outcomes.evaluate_fields-Agrees (lib_of page) page ctx
      ((codes "title", record empty_field { text = some (codes "Dune") }) ∷ []) [] scope
      ((codes "title", codes "Dune") ∷ []) one_field

read_size : parse_size (λ s. s) (codes "1,001.5 GB") ≡ some 1075352436736
unfolding parse_size is_whitespace
read_size = refl

parse_size-IsExact_example : IsExact (cleaned (λ s. s) (codes "1,001.5 GB")) 1075352436736
parse_size-IsExact_example =
    Exact.parse_size-IsExact (λ s. s) (codes "1,001.5 GB") 1075352436736 read_size
