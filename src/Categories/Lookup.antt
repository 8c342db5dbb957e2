-- ===== src/Categories/Lookup.antt =====
-- What the lookups of crates/oxidarr-cardigann/src/categories.rs return on the real table.
use oxidarr.Common.{
  ℕ, ◌+◌, ◌≤◌, ◌<◌, ◌/◌, ◌*◌, ◌≡◌, refl, Bool, true, ◌&&◌, none, some, arith, ltb, leb, all-mem,
  sym, ◌∙◌, inl, inr, ==_iff, ◌==◌, all, find, map, Memᴰ, Option-cases, find-mem,
}
use oxidarr.Categories.{by_id, block_of, parent_of}
use oxidarr.Categories.Table.{NewznabCategory, categories}
use oxidarr.Categories.Search.{ascending, lookup_by-eq-find}

categories_ascending : ascending (map (λ c. c.id) categories) ≡ true
categories_ascending = refl

-- The binary search of the table finds what a scan from its start finds, for every id.
pub by_id-eq-find : (id : ℕ) → by_id id ≡ find (λ c. c.id == id) categories
unfolding by_id
by_id-eq-find id = lookup_by-eq-find (λ c. c.id) categories id categories_ascending

-- One row: its block is a row of the table that is its own block, a multiple of 1000 at most
-- 999 below the row's id.
row_fits : NewznabCategory → Bool
row_fits c =
    let p = block_of c in
    (p == p / 1000 * 1000)
    && leb p c.id
    && ltb c.id (p + 1000)
    && elim (find (λ d. d.id == p) categories) [ none ↦ Bool.false | some d ↦ block_of d == p ]

all_rows_fit : all row_fits categories ≡ true
unfolding row_fits block_of
all_rows_fit = refl

by_id-mem : (id : ℕ) {c : NewznabCategory} → by_id id ≡ some c → Memᴰ c categories × (c.id ≡ id)
by_id-mem id {c} h =
    let (m, e) = find-mem (λ d. d.id == id) categories (sym (by_id-eq-find id) ∙ h) in
    (m, (==_iff c.id id).0 e)

by_id_block :
    (id : ℕ) {c : NewznabCategory}
    → by_id id ≡ some c
    → (parent_of (block_of c) ≡ some (block_of c))
      × (block_of c / 1000 * 1000 ≡ block_of c)
      × (block_of c ≤ id)
      × (id < block_of c + 1000)
unfolding parent_of row_fits
by_id_block id {c} h =
    let (m, e) = by_id-mem id h in
    ground (arith, all-mem row_fits categories all_rows_fit m, by_id-eq-find (block_of c))

-- Whenever an id has a parent, that parent is a top-level block: it is its own parent, it is a
-- multiple of 1000, and the id lies in the thousand that it opens.
parent_of-block :
    (id : ℕ) {p : ℕ}
    → parent_of id ≡ some p
    → (parent_of p ≡ some p) × (p / 1000 * 1000 ≡ p) × (p ≤ id) × (id < p + 1000)
unfolding parent_of
parent_of-block id {p} h = elim (Option-cases (by_id id)) [
  | inl n ↦ cc (n, h)
  | inr (c, e) ↦ let same : block_of c ≡ p = ground (arith, h, e) in rw (← same) (by_id_block id e)
]
