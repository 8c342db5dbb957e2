-- ===== src/Template/Parse.antt =====
-- The parser of templates in crates/oxidarr-cardigann/src/template.rs, from `parse` on, and `render`. Each call
-- of `parse_until` takes fuel, and reads at least the four characters of an action's braces.
use oxidarr.Common.{
  ℕ, zero, suc, ◌==◌, Bool, true, false, not, ◌&&◌, Option, none, some, List, [], ◌∷◌, ◌++◌, any,
  codes, Text, text_eq, length, is_whitespace, if◌then◌else◌,
}
use oxidarr.Common.Outcome.{Outcome, ok, err, ◌>>=◌, map_err}
use oxidarr.Common.Str.{split_pair, trim, first_word, drop}
use oxidarr.Template.{
  Scope, path, Args, nothing, arg, Node, text, var, either, join, re_replace, range, cond, Nodes,
  done, node, Regex, is_empty, join_with, render_nodes,
}
use oxidarr.Template.Arguments.{
  Stop, failed, out_of_fuel, fails, starts_with_dot, parse_cond, parse_args,
}

-- What an action's first word asks for.
pub data Directive : Type 0 where
  stop if_ range_ or_ join_ re_replace_ variable unknown : Directive

unfoldable pub directive : List Text → Text → Directive
directive stops head =
    if any (λ s. text_eq s head) stops
    then stop
    else if text_eq head (codes "if")
    then if_
    else if text_eq head (codes "range")
    then range_
    else if text_eq head (codes "or")
    then or_
    else if text_eq head (codes "join")
    then join_
    else if text_eq head (codes "re_replace")
    then re_replace_
    else if starts_with_dot head
    then variable
    else unknown

-- `strip_prefix("{{")` and the text before and after the first `}}`.
abbrev pub action_parts : Text → Option (Text × Text)
action_parts (c ∷ d ∷ s) = if c == 123 && d == 123 then split_pair 125 125 s else none
action_parts _ = none

abbrev pub head_of : Option (Text × Text) → Text
head_of none = []
head_of (some (inside, after)) = first_word (trim inside)

abbrev pub after_of : Option (Text × Text) → Text
after_of none = []
after_of (some (inside, after)) = after

unfoldable pub action_head : Text → Text
unfolding split_pair first_word trim
action_head s = head_of (action_parts s)

unfoldable pub skip_action : Text → Text
unfolding split_pair
skip_action s = after_of (action_parts s)

-- A literal text, unless it is empty, before the nodes that follow it.
abbrev pub with_text : Text → Nodes → Nodes
with_text [] ns = ns
with_text (c ∷ s) ns = node (text (c ∷ s)) ns

abbrev pub prepend : Text → Node → Nodes × Text → Outcome Stop (Nodes × Text)
prepend before n (ns, rest) = ok (with_text before (node n ns), rest)

abbrev pub one_or_more : Text → Args → Outcome Stop Node
one_or_more full nothing = fails full (codes "or requires at least one argument")
one_or_more full (arg e es) = ok (either (arg e es))

abbrev pub build_join : Text → Args → Outcome Stop Node
build_join full (arg (path list) (arg sep nothing)) = ok (join list sep)
build_join full (arg e (arg sep nothing)) =
    fails full (codes "join's first argument must be a variable path")
build_join full es = fails full (codes "join requires exactly two arguments")

abbrev pub build_re_replace : Text → Args → Outcome Stop Node
build_re_replace full (arg v (arg p (arg r nothing))) = ok (re_replace v p r)
build_re_replace full es = fails full (codes "re_replace requires exactly three arguments")

-- `list.is_empty() || !list.starts_with('.') || list.contains(char::is_whitespace)`, negated.
abbrev pub is_range_list : Text → Bool
is_range_list list = not (is_empty list) && starts_with_dot list && not (any is_whitespace list)

module _ (debug : Text → Text) (full : Text) where
  unfoldable pub parse_or : Text → Outcome Stop Node
  unfolding parse_args
  parse_or action = parse_args debug full action >>= one_or_more full

  unfoldable pub parse_join : Text → Outcome Stop Node
  unfolding parse_args
  parse_join action = parse_args debug full action >>= build_join full

  unfoldable pub parse_re_replace : Text → Outcome Stop Node
  unfolding parse_args
  parse_re_replace action = parse_args debug full action >>= build_re_replace full

  -- No further action.
  abbrev pub at_end : List Text → Text → Outcome Stop (Nodes × Text)
  at_end [] input = ok (with_text input done, [])
  at_end (s ∷ stops) input = fails full (codes "missing " ++ join_with (codes " or ") (s ∷ stops))

  -- One round of `parse_until`, where `rec` are its further rounds and its calls in the bodies of
  -- `if` and `range`.
  module _ (rec : List Text → Text → Outcome Stop (Nodes × Text)) where
    unfoldable pub parse_else : Text → Bool → Outcome Stop (Nodes × Text)
    unfolding skip_action
    parse_else rest true = rec (codes "end" ∷ []) (skip_action rest)
    parse_else rest false = ok (done, rest)

    unfoldable pub parse_if : Text → Text → Outcome Stop (Node × Text)
    unfolding parse_cond trim drop action_head skip_action parse_else
    parse_if action remainder = parse_cond debug full (trim (drop 2 action)) >>= λ c.
        rec (codes "else" ∷ codes "end" ∷ []) remainder >>= λ (taken, rest).
        parse_else rest (text_eq (action_head rest) (codes "else")) >>= λ (otherwise, rest').
        ok (cond c taken otherwise, skip_action rest')

    unfoldable pub parse_range : Text → Text → Outcome Stop (Node × Text)
    unfolding trim drop skip_action
    parse_range action remainder =
        let list = trim (drop 5 action) in
        if is_range_list list
        then (rec (codes "end" ∷ []) remainder >>= λ (body, rest).
            ok (range list body, skip_action rest))
        else fails full (codes "range requires a single variable path, found " ++ debug list)

    -- What follows the node of an action.
    abbrev pub continue : List Text → Text → Node × Text → Outcome Stop (Nodes × Text)
    continue stops before (n, next) = rec stops next >>= prepend before n

    unfoldable pub act :
        Directive → List Text → Text → Text → Text → Text → Outcome Stop (Nodes × Text)
    unfolding parse_if parse_range parse_or parse_join parse_re_replace first_word
    act stop stops before after action remainder = ok (with_text before done, 123 ∷ 123 ∷ after)
    act if_ stops before after action remainder =
        parse_if action remainder >>= continue stops before
    act range_ stops before after action remainder =
        parse_range action remainder >>= continue stops before
    act or_ stops before after action remainder =
        parse_or action >>= λ n. continue stops before (n, remainder)
    act join_ stops before after action remainder =
        parse_join action >>= λ n. continue stops before (n, remainder)
    act re_replace_ stops before after action remainder =
        parse_re_replace action >>= λ n. continue stops before (n, remainder)
    act variable stops before after action remainder =
        continue stops before (var (first_word action), remainder)
    act unknown stops before after action remainder =
        fails full (codes "unsupported directive " ++ debug (first_word action))

    unfoldable pub at_action :
        List Text → Text → Text → Option (Text × Text) → Outcome Stop (Nodes × Text)
    unfolding act directive trim first_word
    at_action stops before after none = fails full (codes "unclosed action")
    at_action stops before after (some (inside, remainder)) =
        act (directive stops (first_word (trim inside))) stops before after (trim inside) remainder

    unfoldable pub at_open : List Text → Text → Option (Text × Text) → Outcome Stop (Nodes × Text)
    unfolding at_action split_pair
    at_open stops input none = at_end stops input
    at_open stops input (some (before, after)) =
        at_action stops before after (split_pair 125 125 after)

  unfoldable pub parse_until : ℕ → List Text → Text → Outcome Stop (Nodes × Text)
  unfolding at_open split_pair
  parse_until zero stops input = err out_of_fuel
  parse_until (suc fuel) stops input =
      at_open (parse_until fuel) stops input (split_pair 123 123 input)

  abbrev pub nothing_left : Nodes × Text → Outcome Stop Nodes
  nothing_left (ns, []) = ok ns
  nothing_left (ns, c ∷ rest) =
      fails full (codes "unexpected trailing action near " ++ debug (c ∷ rest))

unfoldable pub parse : (Text → Text) → Text → Outcome Stop Nodes
unfolding parse_until
parse debug s = parse_until debug s (suc (length s)) [] s >>= nothing_left debug s

unfoldable pub render : {P : Type 0} → Regex P → (Text → Text) → Text → Scope → Outcome Stop Text
unfolding parse render_nodes
render regex debug s scope = parse debug s >>= λ ns.
    map_err failed (render_nodes regex ns (record { scope = scope; item = none }))
