-- ===== src/Template/Laws.antt =====
-- Rendering of crates/oxidarr-cardigann/src/template.rs: that it is a homomorphism, when it succeeds, and the
-- bindings of a scope.
use oxidarr.Common.{
  same_left, same_right, ◌≡◌, refl, ◌∙◌, sym, ap, Bool, true, false, ◌&&◌, some, List, [], ◌∷◌,
  ◌++◌, codes, Text, text_eq, arith, if◌then◌else◌, Bool-cases, inl, inr,
}
use mathlib.Core.List.{append_assoc, append-nil}
use oxidarr.Common.Outcome.{Outcome, ok, err, ◌>>=◌}
use oxidarr.Template.{
  Scope, str, Node, text, var, either, join, re_replace, range, cond, Nodes, done, node, Ctx, Regex,
  CardigannError, get_or_default, insert, strip_prefix, set_config, lookup, value, eval_bool,
  render_each, render_node, render_nodes, join_with,
}

-- Two lists of nodes, one after the other.
abbrev append_nodes : Nodes → Nodes → Nodes
append_nodes done ms = ms
append_nodes (node n ns) ms = node n (append_nodes ns ms)

-- No `re_replace` anywhere, the one node whose rendering can fail.
abbrev mutual
  pub is_simple : Node → Bool
  is_simple (re_replace a b c) = false
  is_simple (range list body) = are_simple body
  is_simple (cond e taken otherwise) = are_simple taken && are_simple otherwise
  is_simple (text t) = true
  is_simple (var p) = true
  is_simple (either args) = true
  is_simple (join list sep) = true

  pub are_simple : Nodes → Bool
  are_simple done = true
  are_simple (node n rest) = is_simple n && are_simple rest

pub get_or_default-insert :
    (k v : Text) (rows : List (Text × Text)) (other : Text)
    → get_or_default other (insert k v rows)
      ≡ (if text_eq k other then v else get_or_default other rows)
unfolding get_or_default insert
get_or_default-insert k v [] other = ground arith
get_or_default-insert k v ((k', v') ∷ rest) other =
    ground
      (arith, same_left k' k other, same_right k' k other, get_or_default-insert k v rest other)

-- A `.Config.` variable reads what `set_config` bound, and no other variable of the namespace sees
-- it.
pub lookup-set_config :
    (k v name : Text) (scope : Scope)
    → lookup (set_config k v scope) (codes ".Config." ++ name)
      ≡ (if text_eq k name then v else lookup scope (codes ".Config." ++ name))
unfolding lookup set_config strip_prefix
lookup-set_config k v name scope = get_or_default-insert k v scope.config name

joined :
    (r s t : Outcome CardigannError Text)
    → ((r >>= λ a. s >>= λ b. ok (a ++ b)) >>= λ x. t >>= λ c. ok (x ++ c))
      ≡ (r >>= λ a. (s >>= λ b. t >>= λ c. ok (b ++ c)) >>= λ y. ok (a ++ y))
joined (err e) s t = refl
joined (ok a) (err e) t = refl
joined (ok a) (ok b) (err e) = refl
joined (ok a) (ok b) (ok c) = ap ok (append_assoc a b c)

rendered_empty : (r : Outcome CardigannError Text) → r ≡ (ok [] >>= λ a. r >>= λ b. ok (a ++ b))
rendered_empty (ok a) = refl
rendered_empty (err e) = refl

module _ {P : Type 0} (regex : Regex P) where
  -- Rendering two templates one after the other is rendering each, with the first error of the two.
  render_nodes-append_nodes :
      (ns ms : Nodes) (ctx : Ctx)
      → render_nodes regex (append_nodes ns ms) ctx
        ≡ (render_nodes regex ns ctx >>= λ a. render_nodes regex ms ctx >>= λ b. ok (a ++ b))
  unfolding render_nodes
  render_nodes-append_nodes done ms ctx = rendered_empty (render_nodes regex ms ctx)
  render_nodes-append_nodes (node n ns) ms ctx =
      ap (λ r. render_node regex n ctx >>= λ a. r >>= λ b. ok (a ++ b))
        (render_nodes-append_nodes ns ms ctx)
      ∙ sym
          (joined (render_node regex n ctx) (render_nodes regex ns ctx) (render_nodes regex ms ctx))

  each_succeeds :
      (body : Text → Outcome CardigannError Text) (items : List Text)
      → ((item : Text) → (t : Text) × (body item ≡ ok t))
      → (t : Text) × (render_each body items ≡ ok t)
  each_succeeds body [] h = ([], refl)
  each_succeeds body (item ∷ rest) h =
      let (a, e) = h item in let (b, f) = each_succeeds body rest h in (a ++ b, rw (e, f) refl)

  mutual
    unfolding render_node render_nodes

    node_succeeds :
        (n : Node) (ctx : Ctx) → is_simple n ≡ true → (t : Text) × (render_node regex n ctx ≡ ok t)
    node_succeeds (text t) ctx h = (t, refl)
    node_succeeds (var p) ctx h = (_, refl)
    node_succeeds (either args) ctx h = (_, refl)
    node_succeeds (join list sep) ctx h = (_, refl)
    node_succeeds (re_replace a b c) ctx h = cc
    node_succeeds (range list body) ctx h =
        each_succeeds
          (λ item. render_nodes regex body (record { scope = ctx.scope; item = some item })) _
          (λ item. nodes_succeed body _ h)
    node_succeeds (cond e taken otherwise) ctx h =
        let (a, ea) = nodes_succeed taken ctx (ground (arith, h)) in
        let (b, eb) = nodes_succeed otherwise ctx (ground (arith, h)) in
        elim (Bool-cases (eval_bool e ctx)) [
          | inl c ↦ (a, rw (c, ea) refl)
          | inr c ↦ (b, rw (c, eb) refl)
        ]

    nodes_succeed :
        (ns : Nodes) (ctx : Ctx)
        → are_simple ns ≡ true
        → (t : Text) × (render_nodes regex ns ctx ≡ ok t)
    nodes_succeed done ctx h = ([], refl)
    nodes_succeed (node n ns) ctx h =
        let (a, e) = node_succeeds n ctx (ground (arith, h)) in
        let (b, f) = nodes_succeed ns ctx (ground (arith, h)) in (a ++ b, rw (e, f) refl)

  -- A parsed template without `re_replace` renders without an error, in every scope.
  render_nodes-simple :
      (ns : Nodes) (ctx : Ctx)
      → are_simple ns ≡ true
      → (t : Text) × (render_nodes regex ns ctx ≡ ok t)
  render_nodes-simple ns ctx h = nodes_succeed ns ctx h

  each_item :
      (scope : Scope) (items : List Text)
      → render_each
          (λ item.
            render_nodes regex
              (node (var (codes ".")) done)
              (record { scope = scope; item = some item }))
          items
        ≡ ok (join_with [] items)
  unfolding render_nodes render_node value
  each_item scope [] = refl
  each_item scope (s ∷ []) = ap ok (append-nil _ ∙ append-nil s)
  each_item scope (s ∷ t ∷ rest) = rw (each_item scope (t ∷ rest)) refl

  -- `{{ range .Categories }}{{ . }}{{ end }}` renders as `{{ join .Categories "" }}` does.
  pub render_node-range :
      (ctx : Ctx)
      → render_node regex (range (codes ".Categories") (node (var (codes ".")) done)) ctx
        ≡ render_node regex (join (codes ".Categories") (str [])) ctx
  unfolding render_node
  render_node-range ctx = each_item ctx.scope ctx.scope.categories
