-- ===== src/Template/Tokens.antt =====
-- `tokenize` of crates/oxidarr-cardigann/src/template.rs. The loop's position in a token is a mode, and each
-- character is one step.
use oxidarr.Common.{
  ℕ, ◌==◌, ◌≡◌, refl, ◌∙◌, ap, Bool, true, false, not, ◌&&◌, ◌||◌, List, [], ◌∷◌, ◌++◌, all, codes,
  Text, is_whitespace, arith, if◌then◌else◌, Bool-cases, inl, inr,
}
use mathlib.Core.List.{append_assoc, append-nil}
use oxidarr.Common.Outcome.{Outcome, ok, err, ◌>>=◌}
use oxidarr.Template.{CardigannError, template}

pub data Token : Type 0 where
  lparen rparen : Token
  str ident : Text → Token

pub data Mode : Type 0 where
  between : Mode
  in_str in_escape in_ident : Text → Mode

abbrev is_paren : ℕ → Bool
is_paren c = c == 40 || c == 41

-- A character between tokens.
abbrev start : ℕ → List Token × Mode
start c =
    if is_whitespace c
    then ([], between)
    else if c == 40
    then (lparen ∷ [], between)
    else if c == 41
    then (rparen ∷ [], between)
    else if c == 34
    then ([], in_str [])
    else ([], in_ident (c ∷ []))

abbrev after_ident : Text → List Token × Mode → List Token × Mode
after_ident s (out, mode) = (ident s ∷ out, mode)

unfoldable pub step : Mode → ℕ → List Token × Mode
step between c = start c
step (in_str s) c =
    if c == 34
    then (str s ∷ [], between)
    else if c == 92
    then ([], in_escape s)
    else ([], in_str (s ++ c ∷ []))
step (in_escape s) c =
    if c == 34 || c == 92 then ([], in_str (s ++ c ∷ [])) else ([], in_str (s ++ 92 ∷ c ∷ []))
step (in_ident s) c =
    if is_whitespace c || is_paren c then after_ident s (start c) else ([], in_ident (s ++ c ∷ []))

unfoldable pub finish : Text → Mode → Outcome CardigannError (List Token)
finish full between = ok []
finish full (in_str s) = err (template full (codes "unterminated string literal"))
finish full (in_escape s) = err (template full (codes "unterminated escape in string literal"))
finish full (in_ident s) = ok (ident s ∷ [])

abbrev emit : List Token → Outcome CardigannError (List Token) → Outcome CardigannError (List Token)
emit out rest = rest >>= λ ts. ok (out ++ ts)

unfoldable pub scan : Text → Mode → Text → Outcome CardigannError (List Token)
unfolding step finish
scan full mode [] = finish full mode
scan full mode (c ∷ rest) = emit (step mode c).0 (scan full (step mode c).1 rest)

unfoldable pub tokenize : Text → Text → Outcome CardigannError (List Token)
unfolding scan
tokenize full expr = scan full between expr

-- The text of a string literal, with `"` and `\` escaped.
abbrev pub escape : Text → Text
escape [] = []
escape (c ∷ s) = if c == 34 || c == 92 then 92 ∷ c ∷ escape s else c ∷ escape s

-- Each token and a space.
abbrev pub print : List Token → Text
print [] = []
print (lparen ∷ ts) = 40 ∷ 32 ∷ print ts
print (rparen ∷ ts) = 41 ∷ 32 ∷ print ts
print (str s ∷ ts) = 34 ∷ (escape s ++ 34 ∷ 32 ∷ print ts)
print (ident s ∷ ts) = s ++ 32 ∷ print ts

abbrev starts_well : Text → Bool
starts_well [] = false
starts_well (c ∷ s) = not (c == 34)

-- An identifier has no whitespace and no parenthesis, and does not start with a quote.
abbrev pub is_printable : Token → Bool
is_printable (ident s) = starts_well s && all (λ c. not (is_whitespace c || is_paren c)) s
is_printable _ = true

emit_nothing : (r : Outcome CardigannError (List Token)) → emit [] r ≡ r
emit_nothing (ok ts) = refl
emit_nothing (err e) = refl

space : is_whitespace 32 ≡ true
unfolding is_whitespace
space = refl

scan-escaped :
    (full : Text) (c : ℕ) (read rest : Text)
    → (c == 34 || c == 92) ≡ true
    → scan full (in_str read) (92 ∷ c ∷ rest) ≡ scan full (in_str (read ++ c ∷ [])) rest
unfolding scan step
scan-escaped full c read rest e = rw e (emit_nothing _ ∙ emit_nothing _)

scan-plain :
    (full : Text) (c : ℕ) (read rest : Text)
    → (c == 34) ≡ false
    → (c == 92) ≡ false
    → scan full (in_str read) (c ∷ rest) ≡ scan full (in_str (read ++ c ∷ [])) rest
unfolding scan step
scan-plain full c read rest quote slash = rw (quote, slash) (emit_nothing _)

scan-first :
    (full : Text) (c : ℕ) (rest : Text)
    → (is_whitespace c || is_paren c) ≡ false
    → (c == 34) ≡ false
    → scan full between (c ∷ rest) ≡ scan full (in_ident (c ∷ [])) rest
unfolding scan step
scan-first full c rest plain quote =
    let blank : is_whitespace c ≡ false = ground (arith, plain) in
    let opens : (c == 40) ≡ false = ground (arith, plain) in
    let closes : (c == 41) ≡ false = ground (arith, plain) in
    rw (blank, opens, closes, quote) (emit_nothing _)

scan-in_str :
    (full s read rest : Text)
    → scan full (in_str read) (escape s ++ 34 ∷ rest)
      ≡ emit (str (read ++ s) ∷ []) (scan full between rest)
unfolding scan step
scan-in_str full [] read rest = rw (append-nil read) refl
scan-in_str full (c ∷ s) read rest =
    let more : scan full (in_str (read ++ c ∷ [])) (escape s ++ 34 ∷ rest)
        ≡ emit (str (read ++ c ∷ s) ∷ []) (scan full between rest) =
      scan-in_str full s (read ++ c ∷ []) rest
      ∙ ap (λ t. emit (str t ∷ []) (scan full between rest)) (append_assoc read (c ∷ []) s) in
    elim (Bool-cases (c == 34 || c == 92)) [
      | inl e ↦ rw e (scan-escaped full c read (escape s ++ 34 ∷ rest) e ∙ more)
      | inr e ↦
          let quote : (c == 34) ≡ false = ground (arith, e) in
          let slash : (c == 92) ≡ false = ground (arith, e) in
          rw e (scan-plain full c read (escape s ++ 34 ∷ rest) quote slash ∙ more)
    ]

scan-in_ident :
    (full s read rest : Text)
    → all (λ c. not (is_whitespace c || is_paren c)) s ≡ true
    → scan full (in_ident read) (s ++ 32 ∷ rest)
      ≡ emit (ident (read ++ s) ∷ []) (scan full between rest)
unfolding scan step
scan-in_ident full [] read rest h = rw (append-nil read, space) refl
scan-in_ident full (c ∷ s) read rest h =
    let plain : (is_whitespace c || is_paren c) ≡ false = ground (arith, h) in
    rw plain (
      emit_nothing _
      ∙ scan-in_ident full s (read ++ c ∷ []) rest (ground (arith, h))
      ∙ ap (λ t. emit (ident t ∷ []) (scan full between rest)) (append_assoc read (c ∷ []) s))

scan-space : (full rest : Text) → scan full between (32 ∷ rest) ≡ scan full between rest
unfolding scan step
scan-space full rest = rw space (emit_nothing _)

scan-ident :
    (full : Text) (c : ℕ) (s rest : Text) (ts : List Token)
    → (c == 34) ≡ false
    → (is_whitespace c || is_paren c) ≡ false
    → all (λ c. not (is_whitespace c || is_paren c)) s ≡ true
    → scan full between rest ≡ ok ts
    → scan full between (c ∷ s ++ 32 ∷ rest) ≡ ok (ident (c ∷ s) ∷ ts)
scan-ident full c s rest ts quote plain all_plain more =
    scan-first full c (s ++ 32 ∷ rest) plain quote
    ∙ scan-in_ident full s (c ∷ []) rest all_plain
    ∙ rw more refl

module _ (full : Text) where
  scan-nothing : scan full between [] ≡ ok []
  unfolding scan finish
  scan-nothing = refl

  scan-open :
      (rest : Text) → scan full between (40 ∷ rest) ≡ emit (lparen ∷ []) (scan full between rest)
  unfolding scan step is_whitespace
  scan-open rest = refl

  scan-close :
      (rest : Text) → scan full between (41 ∷ rest) ≡ emit (rparen ∷ []) (scan full between rest)
  unfolding scan step is_whitespace
  scan-close rest = refl

  scan-quote : (rest : Text) → scan full between (34 ∷ rest) ≡ scan full (in_str []) rest
  unfolding scan step is_whitespace
  scan-quote rest = emit_nothing _

  scan-print : (ts : List Token) → all is_printable ts ≡ true → scan full between (print ts) ≡ ok ts
  scan-print [] h = scan-nothing
  scan-print (lparen ∷ ts) h =
      scan-open (32 ∷ print ts) ∙ rw (scan-space full (print ts), scan-print ts h) refl
  scan-print (rparen ∷ ts) h =
      scan-close (32 ∷ print ts) ∙ rw (scan-space full (print ts), scan-print ts h) refl
  scan-print (str s ∷ ts) h =
      scan-quote (escape s ++ 34 ∷ 32 ∷ print ts)
      ∙ scan-in_str full s [] (32 ∷ print ts)
      ∙ rw (scan-space full (print ts), scan-print ts h) refl
  scan-print (ident [] ∷ ts) h = cc
  scan-print (ident (c ∷ s) ∷ ts) h =
      scan-ident full c s (print ts) ts (ground (arith, h)) (ground (arith, h)) (ground (arith, h))
        (scan-print ts (ground (arith, h)))

  -- `tokenize` reads back the tokens that a text prints: string literals of any characters, and
  -- identifiers without whitespace and parentheses that do not start with a quote.
  pub tokenize-print :
      (ts : List Token) → all is_printable ts ≡ true → tokenize full (print ts) ≡ ok ts
  unfolding tokenize
  tokenize-print ts h = scan-print ts h
