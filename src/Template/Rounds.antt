-- ===== src/Template/Rounds.antt =====
-- `parse` of crates/oxidarr-cardigann/src/template.rs: that each round reads on, and that literal text is
-- itself.
use oxidarr.Common.{
  ℕ, zero, suc, ◌+◌, ◌-◌, subst, ◌≤◌, ◌<◌, ◌≡◌, ◌≢◌, refl, ap, Bool, true, false, Option, none,
  some, List, [], ◌∷◌, Text, codes, length, arith, text_eq,
}
use mathlib.Core.List.{append-nil}
use oxidarr.Common.Outcome.{Outcome, ok, err, map_err}
use oxidarr.Common.Str.{split_pair, split_pair-length, trim, drop, first_word}
use oxidarr.Template.{CardigannError, Scope, Node, var, Nodes, done, Regex, render_nodes}
use oxidarr.Template.Arguments.{Stop, failed, out_of_fuel}
use oxidarr.Template.Parse.{
  Directive, stop, if_, range_, or_, join_, re_replace_, variable, unknown, directive, action_head,
  skip_action, with_text, prepend, is_range_list, parse_or, parse_join, parse_re_replace, at_end,
  parse_else, parse_if, parse_range, continue, act, at_action, at_open, parse_until, nothing_left,
  parse, render,
}
use oxidarr.Template.Fuel.{
  Ends, Ends-ok, Ends-bind, Ends-imp, Ends-if, Ends-fails, parse_cond-Ends, parse_args-Ends,
}
use oxidarr.Template.Builders.{
  skip_action-length, one_or_more-Ends, build_join-Ends, build_re_replace-Ends,
}

module _ (debug : Text → Text) (full : Text) where
  abbrev Within : {A : Type 0} → ℕ → A × Text → Type 0
  Within n r = length r.1 ≤ n

  prepend-Ends :
      (n : ℕ) (before : Text) (x : Node) (r : Nodes × Text)
      → Within n r
      → Ends (Within n) (prepend before x r)
  prepend-Ends n before x (ns, rest) h = Ends-ok _ h

  -- The further rounds, on an input of at most `n` characters, leave at most as many.
  module _ (n : ℕ) (rec : List Text → Text → Outcome Stop (Nodes × Text))
      (rec-Ends : (stops : List Text) (input : Text)
        → length input ≤ n
        → Ends (Within n) (rec stops input)) where
    skipped : (rest : Text) → length rest ≤ n → length (skip_action rest) ≤ n
    skipped rest h = omega (arith, h, skip_action-length rest)

    parse_else-Ends :
        (rest : Text) (b : Bool)
        → length rest ≤ n
        → Ends (Within n) (parse_else debug full rec rest b)
    unfolding parse_else
    parse_else-Ends rest false h = Ends-ok _ h
    parse_else-Ends rest true h = rec-Ends _ (skip_action rest) (skipped rest h)

    parse_if-Ends :
        (action remainder : Text)
        → length remainder ≤ n
        → Ends (Within n) (parse_if debug full rec action remainder)
    unfolding parse_if
    parse_if-Ends action remainder h =
        Ends-bind _ _ (parse_cond-Ends debug full (trim (drop 2 action))) λ c _.
          Ends-bind _ _ (rec-Ends _ remainder h) λ r le.
            Ends-bind _ _ (parse_else-Ends r.1 (text_eq (action_head r.1) (codes "else")) le)
              λ s le'. Ends-ok _ (skipped s.1 le')

    parse_range-Ends :
        (action remainder : Text)
        → length remainder ≤ n
        → Ends (Within n) (parse_range debug full rec action remainder)
    unfolding parse_range
    parse_range-Ends action remainder h =
        Ends-if (is_range_list (trim (drop 5 action))) _ _
          (Ends-bind _ _ (rec-Ends _ remainder h) λ r le. Ends-ok _ (skipped r.1 le))
          (Ends-fails full _)

    continue-Ends :
        (stops : List Text) (before : Text) (r : Node × Text)
        → length r.1 ≤ n
        → Ends (Within n) (continue debug full rec stops before r)
    continue-Ends stops before (x, next) h =
        Ends-bind (rec stops next) _ (rec-Ends stops next h) λ r le. prepend-Ends n before x r le

    more : (r : Outcome Stop (Nodes × Text)) → Ends (Within n) r → Ends (Within (n + 4)) r
    more r e = Ends-imp r e λ a le. omega (arith, le)

    act-Ends :
        (d : Directive) (stops : List Text) (before after action remainder : Text)
        → length remainder ≤ n
        → length after + 2 ≤ n + 4
        → Ends (Within (n + 4)) (act debug full rec d stops before after action remainder)
    unfolding act parse_or parse_join parse_re_replace
    act-Ends stop stops before after action remainder h k = Ends-ok _ (omega (arith, k))
    act-Ends if_ stops before after action remainder h k =
        more _
          (Ends-bind _ _ (parse_if-Ends action remainder h) λ r le. continue-Ends stops before r le)
    act-Ends range_ stops before after action remainder h k = more _ (
        Ends-bind _ _ (parse_range-Ends action remainder h) λ r le. continue-Ends stops before r le)
    act-Ends or_ stops before after action remainder h k = more _ (
        Ends-bind _ _
          (Ends-bind _ _ (parse_args-Ends debug full action) λ es _. one_or_more-Ends full es)
          λ x _. continue-Ends stops before (x, remainder) h)
    act-Ends join_ stops before after action remainder h k = more _ (
        Ends-bind _ _
          (Ends-bind _ _ (parse_args-Ends debug full action) λ es _. build_join-Ends full es)
          λ x _. continue-Ends stops before (x, remainder) h)
    act-Ends re_replace_ stops before after action remainder h k = more _ (
        Ends-bind _ _
          (Ends-bind _ _ (parse_args-Ends debug full action) λ es _. build_re_replace-Ends full es)
          λ x _. continue-Ends stops before (x, remainder) h)
    act-Ends variable stops before after action remainder h k =
        more _ (continue-Ends stops before (var (first_word action), remainder) h)
    act-Ends unknown stops before after action remainder h k = Ends-fails full _

    at_action-Ends :
        (stops : List Text) (before after : Text) (found : Option (Text × Text))
        → split_pair 125 125 after ≡ found
        → length after + 2 ≤ n + 4
        → Ends (Within (n + 4)) (at_action debug full rec stops before after found)
    unfolding at_action
    at_action-Ends stops before after none e h = Ends-fails full _
    at_action-Ends stops before after (some (inside, remainder)) e h =
        act-Ends (directive stops (first_word (trim inside))) stops before after (trim inside)
          remainder (omega (arith, h, split_pair-length 125 125 after inside remainder e)) h

  at_end-Ends :
      (n : ℕ) (stops : List Text) (input : Text) → Ends (Within n) (at_end debug full stops input)
  at_end-Ends n [] input = Ends-ok _ (omega arith)
  at_end-Ends n (s ∷ stops) input = record { at = tt }

  at_open-Ends :
      (n : ℕ) (rec : List Text → Text → Outcome Stop (Nodes × Text)) (stops : List Text)
      (input : Text) (found : Option (Text × Text))
      → ((k : ℕ)
          → k < n
          → (stops : List Text) (input : Text) → length input ≤ k
          → Ends (Within k) (rec stops input))
      → split_pair 123 123 input ≡ found
      → length input ≤ n
      → Ends (Within n) (at_open debug full rec stops input found)
  unfolding at_open
  at_open-Ends n rec stops input none rec-Ends e h = at_end-Ends n stops input
  at_open-Ends n rec stops input (some (before, after)) rec-Ends e h =
      at_action_within (split_pair 125 125 after) refl
    where
      at_action_within :
          (found : Option (Text × Text))
          → split_pair 125 125 after ≡ found
          → Ends (Within n) (at_action debug full rec stops before after found)
      at_action_within none e2 = Ends-fails full _
      at_action_within (some (inside, remainder)) e2 =
          let long = split_pair-length 123 123 input before after e in
          let long2 = split_pair-length 125 125 after inside remainder e2 in
          subst
            (λ m.
              Ends (Within m)
                (at_action debug full rec stops before after (some (inside, remainder))))
            {x = n - 4 + 4} (omega (arith, long, long2, h))
            (at_action-Ends (n - 4) rec (rec-Ends (n - 4) (omega (arith, long, long2, h))) stops
              before after (some (inside, remainder)) e2 (omega (arith, long, long2, h)))

  -- Fuel above the length of the input is enough, and the rest is no longer than the input.
  pub parse_until-Ends :
      (fuel n : ℕ)
      → n < fuel
      → (stops : List Text) (input : Text) → length input ≤ n
      → Ends (Within n) (parse_until debug full fuel stops input)
  unfolding parse_until
  parse_until-Ends zero n h stops input k = absurd (omega (arith, h))
  parse_until-Ends (suc fuel) n h stops input k =
      at_open-Ends n (parse_until debug full fuel) stops input (split_pair 123 123 input)
        (λ m lt. parse_until-Ends fuel m (omega (arith, h, lt))) refl k

  nothing_left-Ends : (r : Nodes × Text) → Ends (λ ns. Unit {0}) (nothing_left debug full r)
  nothing_left-Ends (ns, []) = Ends-ok ns tt
  nothing_left-Ends (ns, c ∷ rest) = record { at = tt }

  parse-Ends : Ends (λ ns. Unit {0}) (parse debug full)
  unfolding parse
  parse-Ends =
      Ends-bind _ _
        (parse_until-Ends (suc (length full)) (length full) (omega arith) [] full (omega arith))
        λ r _. nothing_left-Ends r

  rendered-Ends : (r : Outcome CardigannError Text) → Ends (λ t. Unit {0}) (map_err failed r)
  rendered-Ends (ok t) = Ends-ok t tt
  rendered-Ends (err e) = record { at = tt }

  module _ {P : Type 0} (regex : Regex P) (scope : Scope) where
    render-Ends : Ends (λ t. Unit {0}) (render regex debug full scope)
    unfolding render
    render-Ends = Ends-bind _ _ parse-Ends λ ns _. rendered-Ends _

    has_fuel : (r : Outcome Stop Text) → Ends (λ t. Unit {0}) r → r ≢ err out_of_fuel
    has_fuel (ok t) e h = cc
    has_fuel (err (failed x)) e h = cc
    has_fuel (err out_of_fuel) e h = e.at

    -- `render` returns, whatever the template is: its recursions never run out of fuel.
    pub render-ends : render regex debug full scope ≢ err out_of_fuel
    render-ends = has_fuel _ render-Ends

    literal :
        (s : Text)
        → render_nodes regex (with_text s done) (record { scope = scope; item = none }) ≡ ok s
    unfolding render_nodes
    literal [] = refl
    literal (c ∷ s) = ap ok (append-nil (c ∷ s))

    parse_until-literal :
        (fuel : ℕ)
        → split_pair 123 123 full ≡ none
        → parse_until debug full (suc fuel) [] full ≡ ok (with_text full done, [])
    unfolding parse_until at_open
    parse_until-literal fuel h = rw h refl

    parse-literal : split_pair 123 123 full ≡ none → parse debug full ≡ ok (with_text full done)
    unfolding parse
    parse-literal h = rw (parse_until-literal (length full) h) refl

    -- A text without `{{` renders as itself.
    pub render-literal : split_pair 123 123 full ≡ none → render regex debug full scope ≡ ok full
    unfolding render
    render-literal h = rw (parse-literal h) (ap (map_err failed) (literal full))
