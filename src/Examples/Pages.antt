-- ===== src/Examples/Pages.antt =====
-- The theorems on selectors, on a page with two rows, and the libraries of the other examples.
use oxidarr.Common.{
  ℕ, ◌≡◌, ◌≢◌, arith, refl, false, List, [], ◌∷◌, ◌++◌, any, filter, Text, codes, text_eq, ◌==◌,
  ◌+◌, is_whitespace,
}
use oxidarr.Common.Rounds.{loop}
use oxidarr.Common.Outcome.{ok, err}
use oxidarr.Common.Halt.{panicked}
use oxidarr.Common.Ordered.{get}
use oxidarr.Selectors.{
  Scraper, TextNode, CompiledSelector, css, contains, none_more, also, branch_select, select,
}
use oxidarr.Selectors.Scan.{css_unescape}
use oxidarr.Selectors.Compile.{compile, rewrite, rewrite_round, rewrite_not_equal}
use oxidarr.Selectors.Order as Order
use oxidarr.Selectors.Order.{has, IsAscending}
use oxidarr.Selectors.Rounds as Rounds
use oxidarr.Selectors.Panics as Panics
use oxidarr.Extraction.{Libraries}
use oxidarr.Examples.Filters.{engines, clock, unicode}

mutual
  pub data Tree : Type 0 where
    tree : ℕ → Text → List (Text × Text) → Text → Trees → Tree

  pub data Trees : Type 0 where
    leaf : Trees
    branch : Tree → Trees → Trees

-- An element has its own text first.
unfoldable mutual
  pub below : Tree → List Tree
  below (tree id tag attrs text children) = all_below children

  pub all_below : Trees → List Tree
  all_below leaf = []
  all_below (branch t ts) = t ∷ (below t ++ all_below ts)

unfoldable mutual
  pub texts : List ℕ → Tree → List TextNode
  texts above (tree id tag attrs text children) =
      record { text = text; ancestors = id ∷ above } ∷ all_texts (id ∷ above) children

  pub all_texts : List ℕ → Trees → List TextNode
  all_texts above leaf = []
  all_texts above (branch t ts) = texts above t ++ all_texts above ts

abbrev id_of : Tree → ℕ
id_of (tree id tag attrs text children) = id

abbrev tag_of : Tree → Text
tag_of (tree id tag attrs text children) = tag

abbrev attrs_of : Tree → List (Text × Text)
attrs_of (tree id tag attrs text children) = attrs

abbrev joined : List TextNode → Text
joined [] = []
joined (node ∷ nodes) = node.text ++ joined nodes

abbrev cell : ℕ → Text → Text → Tree
cell id tag text = tree id tag [] text leaf

abbrev row : ℕ → Text → Text → Tree
row id title size =
    tree id (codes "tr") [] []
      (branch (cell (id + 1) (codes "b") title) (branch (cell (id + 2) (codes "i") size) leaf))

abbrev pub page : Tree
page = tree 0 (codes "html") [] [] (
    branch (row 1 (codes "Dune") (codes "1.5 KB"))
      (branch (row 4 (codes "Arrival") (codes "2 GB")) leaf))

-- Of CSS only tags, and one page whatever the body.
abbrev pub scraper_of : Tree → Scraper Tree Text
scraper_of root = record {
  parse_document = λ body. root;
  parse_css = ok;
  css_matches = λ tag el. text_eq tag (tag_of el);
  css_select = λ tag el. filter (λ t. text_eq tag (tag_of t)) (below el);
  id = id_of;
  text = λ el. joined (texts [] el);
  attr = λ name el. get name (attrs_of el);
  text_nodes = texts [];
}

abbrev pub lib_of : Tree → Libraries ℕ ℕ ℕ ℕ Text Text Tree Text
lib_of root = record {
  chrono = clock;
  engines = engines;
  unicode = unicode;
  scraper = scraper_of root;
  debug = λ s. s;
}

abbrev dune : CompiledSelector Text
dune =
    css (
      record { css = codes "tr"; predicates = also (contains (codes "Dune") false) none_more } ∷ [])

compiled_selector : compile (scraper_of page) unicode (codes "tr:contains(\"Dune\")") ≡ ok dune
unfolding compile is_whitespace
compiled_selector = refl

selected_row : select (scraper_of page) dune page ≡ row 1 (codes "Dune") (codes "1.5 KB") ∷ []
unfolding select below texts
selected_row = refl

-- An identifier that is not ASCII: a slice at a byte in the middle of a character.
sliced_identifier :
    compile
      (scraper_of page)
      (record unicode { is_alphanumeric = λ c. c == 233 })
      (233 ∷ codes "[0]")
    ≡ err panicked
unfolding compile is_whitespace
sliced_identifier = refl

rewritten_operator : rewrite_not_equal (codes "a[b!=c] d") ≡ codes "a:not([b=c]) d"
unfolding rewrite_not_equal
rewritten_operator = refl

unescaped_digit : css_unescape (codes "\\31 2\\:") ≡ codes "12:"
unfolding css_unescape is_whitespace
unescaped_digit = refl

select_lem_example :
    IsAscending (scraper_of page) (select (scraper_of page) dune page)
    × ((i : ℕ)
        → has (scraper_of page) i (select (scraper_of page) dune page)
          ≡ any
              (λ b. has (scraper_of page) i (branch_select (scraper_of page) b page))
              (record {
                css = codes "tr";
                predicates = also (contains (codes "Dune") false) none_more;
              }
                ∷ []))
select_lem_example =
    Order.select_lem (scraper_of page)
      (record { css = codes "tr"; predicates = also (contains (codes "Dune") false) none_more }
        ∷ [])
      page

rewrite-ends_example :
    loop (ok ([], none_more)) (rewrite_round (scraper_of page) []) (codes "a:has(b:contains(c))")
    ≡ rewrite (scraper_of page) [] (codes "a:has(b:contains(c))")
rewrite-ends_example =
    Rounds.rewrite-ends (scraper_of page) [] (ok ([], none_more)) (codes "a:has(b:contains(c))")

compile-panics_example : compile (scraper_of page) unicode (codes "td[0]") ≢ err panicked
compile-panics_example =
    Panics.compile-panics unicode (scraper_of page) (codes "td[0]")
      (omega arith, (omega arith, (omega arith, (omega arith, (omega arith, tt)))))
