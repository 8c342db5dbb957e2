-- ===== src/Categories.antt =====
-- crates/oxidarr-cardigann/src/categories.rs: the standard Newznab category table and its
-- lookups. The table is in `Table`, the standard library's binary search in `Search`.
pub mod Table
pub mod Search
pub mod Lookup
use oxidarr.Common.{ℕ, Option, none, some, List}
use Table.{NewznabCategory, categories}
use Search.{lookup_by}

abbrev pub all_categories : List NewznabCategory
all_categories = categories

unfoldable pub by_id : ℕ → Option NewznabCategory
by_id id = lookup_by (λ c. c.id) categories id

-- `category.parent.unwrap_or(category.id)`
unfoldable pub block_of : NewznabCategory → ℕ
block_of c = elim c.parent [ none ↦ c.id | some p ↦ p ]

unfoldable pub parent_of : ℕ → Option ℕ
unfolding block_of
parent_of id = elim (by_id id) [ none ↦ none | some c ↦ some (block_of c) ]
