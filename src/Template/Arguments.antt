-- ===== src/Template/Arguments.antt =====
-- The parser of an action's arguments in crates/oxidarr-cardigann/src/template.rs. The position is the list
-- of the tokens that are left. Recursion is on fuel.
-- `debug` is how `{:?}` prints a text.
use oxidarr.Common.{
  ℕ, zero, suc, ◌+◌, ◌*◌, Bool, true, false, ◌||◌, List, [], ◌∷◌, ◌++◌, codes, Text, text_eq,
  length, if◌then◌else◌, ◌==◌,
}
use oxidarr.Common.Outcome.{Outcome, ok, err, ◌>>=◌, map_err}
use oxidarr.Template.{CardigannError, template, Expr, path, str, call, Args, nothing, arg}
use oxidarr.Template.Tokens.{Token, lparen, rparen, ident, tokenize}

-- An error of the parser, or a recursion that was cut off.
pub data Stop : Type 0 where
  failed : CardigannError → Stop
  out_of_fuel : Stop

-- `CALL_NAMES.contains(&name)`
abbrev pub is_call_name : Text → Bool
is_call_name name =
    text_eq name (codes "and")
    || text_eq name (codes "or")
    || text_eq name (codes "eq")
    || text_eq name (codes "ne")

abbrev pub starts_with_dot : Text → Bool
starts_with_dot [] = false
starts_with_dot (c ∷ s) = c == 46

abbrev pub ends_args : List Token → Bool
ends_args [] = true
ends_args (rparen ∷ ts) = true
ends_args (t ∷ ts) = false

abbrev pub fails : {A : Type 0} → Text → Text → Outcome Stop A
fails full reason = err (failed (template full reason))

-- The expression after a function's name: it needs an argument.
abbrev pub build_call : Text → Text → Args × List Token → Outcome Stop (Expr × List Token)
build_call full name (nothing, ts) = fails full (name ++ codes " requires at least one argument")
build_call full name (arg e es, ts) = ok (call name (arg e es), ts)

abbrev pub close_paren : Text → Expr × List Token → Outcome Stop (Expr × List Token)
close_paren full (e, rparen ∷ ts) = ok (e, ts)
close_paren full (e, ts) = fails full (codes "unbalanced parentheses in condition")

module _ (debug : Text → Text) (full : Text) where
  unfoldable mutual
    pub parse_atom : ℕ → List Token → Outcome Stop (Expr × List Token)
    parse_atom zero ts = err out_of_fuel
    parse_atom (suc fuel) [] = fails full (codes "unexpected end of condition")
    parse_atom (suc fuel) (lparen ∷ ts) = parse_expr fuel ts >>= close_paren full
    parse_atom (suc fuel) (rparen ∷ ts) = fails full (codes "unexpected ')' in condition")
    parse_atom (suc fuel) (Token.str s ∷ ts) = ok (str s, ts)
    parse_atom (suc fuel) (ident p ∷ ts) =
        if starts_with_dot p
        then ok (path p, ts)
        else fails full (codes "expected a variable path or string, found " ++ debug p)

    pub parse_expr : ℕ → List Token → Outcome Stop (Expr × List Token)
    parse_expr zero ts = err out_of_fuel
    parse_expr (suc fuel) (ident name ∷ ts) = elim (is_call_name name) [
      | true ↦ parse_each fuel ts >>= build_call full name
      | false ↦ parse_atom fuel (ident name ∷ ts)
    ]
    parse_expr (suc fuel) ts = parse_atom fuel ts

    -- Atoms up to the end or a `)`.
    pub parse_each : ℕ → List Token → Outcome Stop (Args × List Token)
    parse_each zero ts = err out_of_fuel
    parse_each (suc fuel) ts = elim (ends_args ts) [
      | true ↦ ok (nothing, ts)
      | false ↦ parse_atom fuel ts >>= λ (e, ts').
          parse_each fuel ts' >>= λ (es, rest). ok (arg e es, rest)
    ]

  -- The fuel for so many tokens.
  abbrev pub fuel_for : List Token → ℕ
  fuel_for ts = 3 * length ts + 2

  abbrev pub lexed : Outcome CardigannError (List Token) → Outcome Stop (List Token)
  lexed r = map_err failed r

  -- The whole of the tokens is one expression.
  abbrev pub all_consumed : Text → Expr × List Token → Outcome Stop Expr
  all_consumed expr_str (e, []) = ok e
  all_consumed expr_str (e, t ∷ ts) =
      fails full (codes "unexpected trailing tokens in condition " ++ debug expr_str)

  unfoldable pub parse_tokens : Text → List Token → Outcome Stop Expr
  unfolding parse_expr
  parse_tokens expr_str [] = fails full (codes "empty condition")
  parse_tokens expr_str (t ∷ ts) = parse_expr (fuel_for (t ∷ ts)) (t ∷ ts) >>= all_consumed expr_str

  unfoldable pub parse_cond : Text → Outcome Stop Expr
  unfolding parse_tokens
  parse_cond expr_str = lexed (tokenize full expr_str) >>= parse_tokens expr_str

  -- `while pos < tokens.len()`
  unfoldable pub parse_atoms : ℕ → List Token → Outcome Stop Args
  unfolding parse_atom
  parse_atoms fuel [] = ok nothing
  parse_atoms zero (t ∷ ts) = err out_of_fuel
  parse_atoms (suc fuel) (t ∷ ts) = parse_atom (fuel_for (t ∷ ts)) (t ∷ ts) >>= λ (e, rest).
      parse_atoms fuel rest >>= λ es. ok (arg e es)

  abbrev pub tail : List Token → List Token
  tail [] = []
  tail (t ∷ ts) = ts

  -- The first token is the function's name.
  unfoldable pub parse_args : Text → Outcome Stop Args
  unfolding parse_atoms
  parse_args action =
      lexed (tokenize full action) >>= λ ts. parse_atoms (length (tail ts)) (tail ts)
