-- ===== src/Template.antt =====
-- crates/oxidarr-cardigann/src/template.rs: the syntax of parsed templates, and how they render. `Pattern`
-- of filters.rs, over the regex crates, is a parameter.
pub mod Laws
pub mod Tokens
pub mod Arguments
pub mod Parse
pub mod Fuel
pub mod Builders
pub mod Rounds
pub mod Render
use oxidarr.Common.{
  ℕ, ◌==◌, Bool, true, false, not, ◌&&◌, Option, none, some, List, [], ◌∷◌, ◌++◌, any, all, codes,
  Text, text_eq, length, if◌then◌else◌,
}
use oxidarr.Common.Outcome.{Outcome, ok, err, ◌>>=◌, ◌>>◌, map_err}

-- A `HashMap` is a list of pairs, and the first with a key counts.
pub record Scope : Type 0 where
  pub keywords : Text
  pub config : List (Text × Text)
  pub result : List (Text × Text)
  pub categories : List Text
  pub query : List (Text × Text)

mutual
  pub data Expr : Type 0 where
    path : Text → Expr
    str : Text → Expr
    call : Text → Args → Expr

  pub data Args : Type 0 where
    nothing : Args
    arg : Expr → Args → Args

mutual
  pub data Node : Type 0 where
    text : Text → Node
    var : Text → Node
    either : Args → Node
    join : Text → Expr → Node
    re_replace : Expr → Expr → Expr → Node
    range : Text → Nodes → Node
    cond : Expr → Nodes → Nodes → Node

  pub data Nodes : Type 0 where
    done : Nodes
    node : Node → Nodes → Nodes

-- `HashMap::get`, then `unwrap_or_default`.
unfoldable pub get_or_default : Text → List (Text × Text) → Text
get_or_default key [] = []
get_or_default key ((k, v) ∷ rest) = if text_eq k key then v else get_or_default key rest

-- `HashMap::insert`.
unfoldable pub insert : Text → Text → List (Text × Text) → List (Text × Text)
insert k v [] = (k, v) ∷ []
insert k v ((k', v') ∷ rest) = if text_eq k' k then (k', v) ∷ rest else (k', v') ∷ insert k v rest

unfoldable pub strip_prefix : Text → Text → Option Text
strip_prefix [] s = some s
strip_prefix (c ∷ p) [] = none
strip_prefix (c ∷ p) (d ∷ s) = let rest = strip_prefix p s in if c == d then rest else none

unfoldable pub set_keywords : Text → Scope → Scope
set_keywords s scope = record scope { keywords = s }

unfoldable pub set_config : Text → Text → Scope → Scope
unfolding insert
set_config k v scope = record scope { config = insert k v scope.config }

unfoldable pub set_result : Text → Text → Scope → Scope
unfolding insert
set_result k v scope = record scope { result = insert k v scope.result }

unfoldable pub set_query : Text → Text → Scope → Scope
unfolding insert
set_query k v scope = record scope { query = insert k v scope.query }

unfoldable pub set_categories : List Text → Scope → Scope
set_categories ids scope = record scope { categories = ids }

module _ (scope : Scope) where
  -- The chain of `strip_prefix` calls, the last first.
  lookup_query : Option Text → Text
  unfolding get_or_default
  lookup_query (some name) = get_or_default name scope.query
  lookup_query none = []

  lookup_result : Option Text → Text → Text
  unfolding lookup_query get_or_default
  lookup_result (some name) p = get_or_default name scope.result
  lookup_result none p = lookup_query (strip_prefix (codes ".Query.") p)

  lookup_config : Option Text → Text → Text
  unfolding lookup_result get_or_default
  lookup_config (some name) p = get_or_default name scope.config
  lookup_config none p = lookup_result (strip_prefix (codes ".Result.") p) p

  unfoldable pub lookup : Text → Text
  unfolding lookup_config strip_prefix
  lookup p =
      if text_eq p (codes ".Keywords")
      then scope.keywords
      else if text_eq p (codes ".False")
      then []
      else if text_eq p (codes ".True")
      then codes "True"
      else lookup_config (strip_prefix (codes ".Config.") p) p

-- The scope, and the current item of a `range`.
pub record Ctx : Type 0 where
  pub scope : Scope
  pub item : Option Text

abbrev pub or_empty : Option Text → Text
or_empty none = []
or_empty (some s) = s

abbrev pub is_empty : {A : Type 0} → List A → Bool
is_empty [] = true
is_empty (x ∷ xs) = false

unfoldable pub value : Ctx → Text → Text
unfolding lookup
value ctx p = if text_eq p (codes ".") then or_empty ctx.item else lookup ctx.scope p

unfoldable pub truthy : Ctx → Text → Bool
unfolding value
truthy ctx p =
    if text_eq p (codes ".Categories")
    then not (is_empty ctx.scope.categories)
    else not (is_empty (value ctx p))

abbrev show_bool : Bool → Text
show_bool true = codes "true"
show_bool false = codes "false"

abbrev same_two : List Text → Bool
same_two (a ∷ b ∷ []) = text_eq a b
same_two _ = false

abbrev differ_two : List Text → Bool
differ_two (a ∷ b ∷ []) = not (text_eq a b)
differ_two _ = false

-- The value of a call, from the truth values and the texts of its arguments.
abbrev pub call_value : Text → List Bool → List Text → Bool
call_value name truths texts =
    if text_eq name (codes "and")
    then all (λ b. b) truths
    else if text_eq name (codes "or")
    then any (λ b. b) truths
    else if text_eq name (codes "eq")
    then same_two texts
    else if text_eq name (codes "ne")
    then differ_two texts
    else false

unfoldable mutual
  unfolding value truthy

  pub eval_str : Expr → Ctx → Text
  eval_str (path p) ctx = value ctx p
  eval_str (str s) ctx = s
  eval_str (call name args) ctx = show_bool (call_value name (truths args ctx) (texts args ctx))

  pub eval_bool : Expr → Ctx → Bool
  eval_bool (path p) ctx = truthy ctx p
  eval_bool (str s) ctx = not (is_empty s)
  eval_bool (call name args) ctx = call_value name (truths args ctx) (texts args ctx)

  pub truths : Args → Ctx → List Bool
  truths nothing ctx = []
  truths (arg e rest) ctx = eval_bool e ctx ∷ truths rest ctx

  pub texts : Args → Ctx → List Text
  texts nothing ctx = []
  texts (arg e rest) ctx = eval_str e ctx ∷ texts rest ctx

-- crates/oxidarr-cardigann/src/error.rs. Rendering fails with `template` alone.
pub data CardigannError : Type 0 where
  selector : Text → Text → CardigannError
  unbalanced_contains : Text → CardigannError
  template : Text → Text → CardigannError
  unknown_filter : Text → CardigannError
  filter : Text → Text → CardigannError
  definition : Text → CardigannError

-- `Pattern::compile` and `Pattern::replace_all` of filters.rs.
pub record Regex (P : Type 0) : Type 0 where
  pub compile : Text → Outcome Text P
  pub replace_all : P → Text → Text → Outcome Text Text

-- The first text that is not empty, or the empty text.
abbrev pub first_filled : List Text → Text
first_filled [] = []
first_filled (s ∷ rest) = if is_empty s then first_filled rest else s

-- `[String]::join`
abbrev pub join_with : Text → List Text → Text
join_with sep [] = []
join_with sep (s ∷ []) = s
join_with sep (s ∷ t ∷ rest) = s ++ sep ++ join_with sep (t ∷ rest)

-- What the loop over the items appends, up to the first error.
abbrev pub render_each :
    (Text → Outcome CardigannError Text) → List Text → Outcome CardigannError Text
render_each body [] = ok []
render_each body (item ∷ rest) = body item >>= λ a. render_each body rest >>= λ b. ok (a ++ b)

module _ {P : Type 0} (regex : Regex P) where
  unfoldable pub replaced : Text → Text → Text → Outcome CardigannError Text
  replaced s pattern replacement =
      map_err (λ reason. template pattern (codes "invalid regular expression: " ++ reason))
        (regex.compile pattern)
      >>= λ re. map_err (template pattern) (regex.replace_all re s replacement)

  -- What a node appends to the output, and a list of nodes.
  unfoldable mutual
    unfolding replaced eval_str eval_bool truths texts value

    pub render_node : Node → Ctx → Outcome CardigannError Text
    render_node (text t) ctx = ok t
    render_node (var p) ctx = ok (value ctx p)
    render_node (either args) ctx = ok (first_filled (texts args ctx))
    render_node (join list sep) ctx = ok (
        if text_eq list (codes ".Categories")
        then join_with (eval_str sep ctx) ctx.scope.categories
        else [])
    render_node (re_replace e pattern replacement) ctx =
        replaced (eval_str e ctx) (eval_str pattern ctx) (eval_str replacement ctx)
    render_node (range list body) ctx =
        render_each (λ item. render_nodes body (record { scope = ctx.scope; item = some item }))
          (if text_eq list (codes ".Categories") then ctx.scope.categories else [])
    render_node (cond e taken otherwise) ctx =
        let a = render_nodes taken ctx in
        let b = render_nodes otherwise ctx in if eval_bool e ctx then a else b

    pub render_nodes : Nodes → Ctx → Outcome CardigannError Text
    render_nodes done ctx = ok []
    render_nodes (node n rest) ctx =
        let a = render_node n ctx in
        let b = render_nodes rest ctx in a >>= λ x. b >>= λ y. ok (x ++ y)
