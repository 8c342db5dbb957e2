-- ===== src/Examples/Templates.antt =====
-- The theorems on templates, at concrete ones.
use oxidarr.Common.{all, is_whitespace, List, true, [], ◌∷◌, ◌≡◌, ◌≢◌, refl, none, codes, Text}
use oxidarr.Common.Outcome.{ok, err}
use oxidarr.Template.{Scope, path, text, var, range, cond, Nodes, done, node, Ctx, Regex}
use oxidarr.Template.Rounds as Rounds
use oxidarr.Template.Parse.{render}
use oxidarr.Template.Arguments.{out_of_fuel}
use oxidarr.Template.Tokens as Tokens
use oxidarr.Template.Tokens.{
  Token, lparen, rparen, str as quoted, ident, tokenize, print, is_printable,
}

-- A pattern is its own text, and replaces everything.
abbrev regex : Regex Text
regex = record { compile = ok; replace_all = λ p s r. ok r }

abbrev scope : Scope
scope = record {
  keywords = codes "dune";
  config = [];
  result = [];
  categories = codes "1" ∷ codes "2" ∷ [];
  query = [];
}

abbrev ctx : Ctx
ctx = record { scope = scope; item = none }

-- q={{ .Keywords }}{{ if .True }}&c={{ range .Categories }}{{ . }}{{ end }}{{ else }}none{{ end }}
abbrev search : Nodes
search = node (text (codes "q=")) (
    node (var (codes ".Keywords")) (
      node
        (cond (path (codes ".True"))
          (node (text (codes "&c="))
            (node (range (codes ".Categories") (node (var (codes ".")) done)) done))
          (node (text (codes "none")) done))
        done))

abbrev tokens : List Token
tokens =
    ident (codes "eq") ∷ lparen ∷ ident (codes ".Keywords") ∷ rparen ∷ quoted (codes "a \"b\\") ∷ []

tokens_printable : all is_printable tokens ≡ true
unfolding is_whitespace
tokens_printable = refl

tokenize-print_example : tokenize (codes "eq") (print tokens) ≡ ok tokens
tokenize-print_example = Tokens.tokenize-print (codes "eq") tokens tokens_printable

abbrev source : Text
source =
    codes
      "q={{ .Keywords }}{{ if .True }}&c={{ range .Categories }}{{ . }}{{ end }}{{ else }}none{{ end }}"

rendered_source : render regex (λ s. s) source scope ≡ ok (codes "q=dune&c=12")
unfolding render is_whitespace tokenize
rendered_source = refl

render-ends_example : render regex (λ s. s) source scope ≢ err out_of_fuel
render-ends_example = Rounds.render-ends (λ s. s) source regex scope
