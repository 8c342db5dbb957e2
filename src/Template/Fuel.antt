-- ===== src/Template/Fuel.antt =====
-- The fuel of the parser in crates/oxidarr-cardigann/src/template.rs is enough.
use oxidarr.Common.{
  ℕ, zero, suc, ◌+◌, ◌*◌, ◌≤◌, ◌<◌, Bool, true, false, List, [], ◌∷◌, Text, length, arith,
  if◌then◌else◌, Bool-cases, inl, inr,
}
use oxidarr.Common.Outcome.{Outcome, ok, err, ◌>>=◌}
use oxidarr.Template.{CardigannError, Expr, Args, nothing, arg, path, str}
use oxidarr.Template.Tokens.{Token, lparen, rparen, ident, tokenize}
use oxidarr.Template.Arguments.{
  Stop, failed, out_of_fuel, fails, is_call_name, starts_with_dot, ends_args, build_call,
  close_paren, parse_atom, parse_expr, parse_each, lexed, all_consumed, parse_tokens, parse_cond,
  parse_atoms, parse_args, tail,
}

-- Not out of fuel, and `P` holds of a result.
abbrev EndsAt : {A : Type 0} → (A → Type 0) → Outcome Stop A → Type 0
EndsAt P (ok a) = P a
EndsAt P (err (failed e)) = Unit {0}
EndsAt P (err out_of_fuel) = ⊥

pub record Ends {A : Type 0} (P : A → Type 0) (r : Outcome Stop A) : Type 0 where
  pub at : EndsAt P r

pub Ends-ok : {A : Type 0} {P : A → Type 0} (a : A) → P a → Ends P (ok a)
Ends-ok a h = record { at = h }

pub Ends-fails : {A : Type 0} {P : A → Type 0} (full reason : Text) → Ends P (fails full reason)
Ends-fails full reason = record { at = tt }

pub Ends-bind :
    {A B : Type 0} {P : A → Type 0} {Q : B → Type 0} (m : Outcome Stop A) (f : A → Outcome Stop B)
    → Ends P m
    → ((a : A) → P a → Ends Q (f a))
    → Ends Q (m >>= f)
Ends-bind (ok a) f h k = k a h.at
Ends-bind (err (failed e)) f h k = record { at = tt }
Ends-bind (err out_of_fuel) f h k = absurd h.at

pub Ends-imp :
    {A : Type 0} {P Q : A → Type 0} (m : Outcome Stop A)
    → Ends P m
    → ((a : A) → P a → Q a)
    → Ends Q m
Ends-imp (ok a) h k = record { at = k a h.at }
Ends-imp (err (failed e)) h k = record { at = tt }
Ends-imp (err out_of_fuel) h k = absurd h.at

pub Ends-if :
    {A : Type 0} {P : A → Type 0} (b : Bool) (m n : Outcome Stop A)
    → Ends P m
    → Ends P n
    → Ends P (if b then m else n)
Ends-if true m n h k = h
Ends-if false m n h k = k

pub Ends-lexed :
    (debug : Text → Text) (full : Text) (r : Outcome CardigannError (List Token))
    → Ends (λ ts. Unit {0}) (lexed debug full r)
Ends-lexed debug full (ok ts) = record { at = tt }
Ends-lexed debug full (err e) = record { at = tt }

module _ (debug : Text → Text) (full : Text) where
  -- The tokens that are left are fewer, or not more.
  abbrev Shorter : {A : Type 0} → List Token → A × List Token → Type 0
  Shorter ts r = length r.1 < length ts

  abbrev NotLonger : {A : Type 0} → List Token → A × List Token → Type 0
  NotLonger ts r = length r.1 ≤ length ts

  close_paren-Ends :
      (n : ℕ) (r : Expr × List Token)
      → length r.1 ≤ n
      → Ends (λ s. length s.1 < suc n) (close_paren full r)
  close_paren-Ends n (e, []) h = record { at = tt }
  close_paren-Ends n (e, lparen ∷ ts) h = record { at = tt }
  close_paren-Ends n (e, rparen ∷ ts) h = Ends-ok (e, ts) (omega (arith, h))
  close_paren-Ends n (e, Token.str s ∷ ts) h = record { at = tt }
  close_paren-Ends n (e, ident s ∷ ts) h = record { at = tt }

  build_call-Ends :
      (name : Text) (n : ℕ) (r : Args × List Token)
      → length r.1 ≤ n
      → Ends (λ s. length s.1 < suc n) (build_call full name r)
  build_call-Ends name n (nothing, ts) h = record { at = tt }
  build_call-Ends name n (arg e es, ts) h = Ends-ok _ (omega (arith, h))

  mutual
    unfolding parse_atom parse_expr parse_each

    atom-Ends :
        (fuel : ℕ) (ts : List Token)
        → 3 * length ts < fuel
        → Ends (Shorter ts) (parse_atom debug full fuel ts)
    atom-Ends zero ts h = absurd (omega (arith, h))
    atom-Ends (suc fuel) [] h = record { at = tt }
    atom-Ends (suc fuel) (lparen ∷ ts) h =
        Ends-bind (parse_expr debug full fuel ts) _ (expr-Ends fuel ts (omega (arith, h)))
          λ r le. close_paren-Ends (length ts) r (omega (arith, le))
    atom-Ends (suc fuel) (rparen ∷ ts) h = record { at = tt }
    atom-Ends (suc fuel) (Token.str s ∷ ts) h = Ends-ok (str s, ts) (omega arith)
    atom-Ends (suc fuel) (ident p ∷ ts) h =
        Ends-if (starts_with_dot p) _ _ (Ends-ok (path p, ts) (omega arith)) (record { at = tt })

    expr-Ends :
        (fuel : ℕ) (ts : List Token)
        → 3 * length ts + 1 < fuel
        → Ends (Shorter ts) (parse_expr debug full fuel ts)
    expr-Ends zero ts h = absurd (omega (arith, h))
    expr-Ends (suc fuel) [] h = atom-Ends fuel [] (omega (arith, h))
    expr-Ends (suc fuel) (lparen ∷ ts) h = atom-Ends fuel (lparen ∷ ts) (omega (arith, h))
    expr-Ends (suc fuel) (rparen ∷ ts) h = atom-Ends fuel (rparen ∷ ts) (omega (arith, h))
    expr-Ends (suc fuel) (Token.str s ∷ ts) h = atom-Ends fuel (Token.str s ∷ ts) (omega (arith, h))
    expr-Ends (suc fuel) (ident name ∷ ts) h = elim (Bool-cases (is_call_name name)) [
      | inl e ↦
          rw (e, parse_expr)
            (Ends-bind (parse_each debug full fuel ts) _ (each-Ends fuel ts (omega (arith, h)))
              λ r le. build_call-Ends name (length ts) r le)
      | inr e ↦ rw (e, parse_expr) (atom-Ends fuel (ident name ∷ ts) (omega (arith, h)))
    ]

    each-Ends :
        (fuel : ℕ) (ts : List Token)
        → 3 * length ts + 1 < fuel
        → Ends (NotLonger ts) (parse_each debug full fuel ts)
    each-Ends zero ts h = absurd (omega (arith, h))
    each-Ends (suc fuel) ts h = elim (Bool-cases (ends_args ts)) [
      | inl e ↦ rw (e, parse_each) (Ends-ok _ (omega arith))
      | inr e ↦
          rw (e, parse_each)
            (Ends-bind (parse_atom debug full fuel ts) _ (atom-Ends fuel ts (omega (arith, h)))
              λ r lt.
                Ends-bind (parse_each debug full fuel r.1) _
                  (each-Ends fuel r.1 (omega (arith, h, lt)))
                  λ s le. Ends-ok _ (omega (arith, lt, le)))
    ]

  all_consumed-Ends :
      (expr_str : Text) (r : Expr × List Token)
      → Ends (λ e. Unit {0}) (all_consumed debug full expr_str r)
  all_consumed-Ends expr_str (e, []) = Ends-ok e tt
  all_consumed-Ends expr_str (e, t ∷ ts) = record { at = tt }

  parse_tokens-Ends :
      (expr_str : Text) (ts : List Token)
      → Ends (λ e. Unit {0}) (parse_tokens debug full expr_str ts)
  unfolding parse_tokens
  parse_tokens-Ends expr_str [] = record { at = tt }
  parse_tokens-Ends expr_str (t ∷ ts) =
      Ends-bind _ _ (expr-Ends (3 * length (t ∷ ts) + 2) (t ∷ ts) (omega arith))
        λ r _. all_consumed-Ends expr_str r

  pub parse_cond-Ends : (expr_str : Text) → Ends (λ e. Unit {0}) (parse_cond debug full expr_str)
  unfolding parse_cond
  parse_cond-Ends expr_str =
      Ends-bind _ _ (Ends-lexed debug full (tokenize full expr_str))
        λ ts _. parse_tokens-Ends expr_str ts

  parse_atoms-Ends :
      (fuel : ℕ) (ts : List Token)
      → length ts ≤ fuel
      → Ends (λ e. Unit {0}) (parse_atoms debug full fuel ts)
  unfolding parse_atoms
  parse_atoms-Ends fuel [] h = Ends-ok nothing tt
  parse_atoms-Ends zero (t ∷ ts) h = absurd (omega (arith, h))
  parse_atoms-Ends (suc fuel) (t ∷ ts) h =
      Ends-bind _ _ (atom-Ends (3 * length (t ∷ ts) + 2) (t ∷ ts) (omega arith)) λ r lt.
        Ends-bind _ _ (parse_atoms-Ends fuel r.1 (omega (arith, h, lt))) λ es _. Ends-ok _ tt

  pub parse_args-Ends : (action : Text) → Ends (λ e. Unit {0}) (parse_args debug full action)
  unfolding parse_args
  parse_args-Ends action =
      Ends-bind _ _ (Ends-lexed debug full (tokenize full action))
        λ ts _. parse_atoms-Ends (length (tail debug full ts)) (tail debug full ts) (omega arith)
