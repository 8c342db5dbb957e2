-- ===== src/Login/Pairs.antt =====
-- The pairs that a form login sends, in crates/oxidarr-indexer/src/login.rs.
use oxidarr.Common.{
  ◌≡◌, refl, ap, ◌∙◌, Bool, true, false, Option, none, some, List, [], ◌∷◌, Text, codes, text_eq,
  if◌then◌else◌, Bool-cases, inl, inr, arith, same_left, text_eq_sym, any, subst,
}
use oxidarr.Common.Outcome.{ok, err, ◌>>=◌}
use oxidarr.Common.NoTwo.{NoTwo}
use oxidarr.Common.Ordered.{get, get_last, later_or, later_or-none}
use oxidarr.Model.{Login}
use oxidarr.Template.{Scope}
use oxidarr.Filters.{FilterCtx}
use oxidarr.Selectors.{CompiledSelector, select}
use oxidarr.Extraction.{Libraries}
use oxidarr.Login.{Result, compile_html_selector}
use oxidarr.Login.Form.{
  upsert, upsert_all, form_inputs, scraped_inputs, rendered_inputs, form_pairs,
}

abbrev same_name : Text × Text → Text × Text → Bool
same_name x y = text_eq x.0 y.0

abbrev pub OnceEach : List (Text × Text) → Type 0
OnceEach pairs = NoTwo same_name pairs

get-upsert :
    (key name v : Text) (pairs : List (Text × Text))
    → get key (upsert name v pairs) ≡ (if text_eq name key then some v else get key pairs)
unfolding get upsert
get-upsert key name v [] = refl
get-upsert key name v ((k, w) ∷ pairs) = ground (
  arith,
  same_left k name key,
  same_left k key name,
  text_eq_sym key name,
  get-upsert key name v pairs,
)

-- A name that is in the pairs after an `upsert` was in them before, or is the one set.
named-upsert :
    (x : Text × Text) (name v : Text) (pairs : List (Text × Text))
    → text_eq x.0 name ≡ false
    → any (same_name x) (upsert name v pairs) ≡ any (same_name x) pairs
unfolding upsert
named-upsert x name v [] h = ground (arith, h)
named-upsert x name v ((k, w) ∷ pairs) h = elim (Bool-cases (text_eq k name)) [
  | inl e ↦ rw e refl
  | inr e ↦ rw (e, named-upsert x name v pairs h) refl
]

upsert-OnceEach :
    (name v : Text) (pairs : List (Text × Text)) → OnceEach pairs → OnceEach (upsert name v pairs)
unfolding upsert
upsert-OnceEach name v [] d = (refl, tt)
upsert-OnceEach name v ((k, w) ∷ pairs) d = elim (Bool-cases (text_eq k name)) [
  | inl e ↦ rw e (d.0, d.1)
  | inr e ↦ rw e (named-upsert (k, w) name v pairs e ∙ d.0, upsert-OnceEach name v pairs d.1)
]

upsert_all-OnceEach :
    (overlay pairs : List (Text × Text)) → OnceEach pairs → OnceEach (upsert_all overlay pairs)
unfolding upsert_all
upsert_all-OnceEach [] pairs d = d
upsert_all-OnceEach ((name, v) ∷ overlay) pairs d =
    upsert_all-OnceEach overlay (upsert name v pairs) (upsert-OnceEach name v pairs d)

later_later :
    (o held : Option Text) (b : Bool) (v : Text)
    → later_or (if b then some v else held) o
      ≡ later_or held (later_or (if b then some v else none) o)
later_later none held true v = refl
later_later none held false v = refl
later_later (some w) held b v = refl

-- The last pair of an overlay with a name counts, and else what was there.
get-upsert_all :
    (key : Text) (overlay pairs : List (Text × Text))
    → get key (upsert_all overlay pairs) ≡ later_or (get key pairs) (get_last key overlay)
unfolding upsert_all get_last
get-upsert_all key [] pairs = refl
get-upsert_all key ((name, v) ∷ overlay) pairs =
    get-upsert_all key overlay (upsert name v pairs)
    ∙ ap (λ o. later_or o (get_last key overlay)) (get-upsert key name v pairs)
    ∙ later_later (get_last key overlay) (get key pairs) (text_eq name key) v

module _ {I D T L F B E C : Type 0} (lib : Libraries I D T L F B E C) (login : Login)
    (root form : E) (ctx : FilterCtx I) (scope : Scope) where
  -- Each name once, with the value that the rendered inputs give it, or else the scraped ones, or
  -- else the form, of each the last.
  abbrev pub IsOverlaid : List (Text × Text) → Type 0
  IsOverlaid pairs =
      (inputs : CompiledSelector C) × (scraped : List (Text × Text)) × (rendered : List
        (Text × Text))
      × (compile_html_selector lib (codes "input[name]") ≡ ok inputs)
      × (scraped_inputs lib login.selectorinputs root ctx ≡ ok scraped)
      × (rendered_inputs lib login.selectors login.inputs scope root ≡ ok rendered)
      × OnceEach pairs
      × ((name : Text)
          → get name pairs
            ≡ later_or
                (later_or (get_last name (form_inputs lib (select lib.scraper inputs form)))
                  (get_last name scraped))
                (get_last name rendered))

  abbrev OfPairs : Result (List (Text × Text)) → Type 0
  OfPairs (ok pairs) = IsOverlaid pairs
  OfPairs (err e) = Unit

  OfPairs-bind :
      {A : Type 0} (r : Result A) (f : A → Result (List (Text × Text)))
      → ((a : A) → r ≡ ok a → OfPairs (f a))
      → OfPairs (r >>= f)
  OfPairs-bind (ok a) f h = h a refl
  OfPairs-bind (err e) f h = tt

  overlaid :
      (hidden scraped rendered : List (Text × Text)) (name : Text)
      → get name (upsert_all rendered (upsert_all scraped (upsert_all hidden [])))
        ≡ later_or
            (later_or (get_last name hidden) (get_last name scraped))
            (get_last name rendered)
  unfolding get
  overlaid hidden scraped rendered name =
      get-upsert_all name rendered (upsert_all scraped (upsert_all hidden []))
      ∙ ap (λ o. later_or o (get_last name rendered))
          (get-upsert_all name scraped (upsert_all hidden [])
            ∙ ap (λ o. later_or o (get_last name scraped))
                (get-upsert_all name hidden [] ∙ later_or-none (get_last name hidden)))

  form_pairs-OfPairs : OfPairs (form_pairs lib login root form ctx scope)
  unfolding form_pairs
  form_pairs-OfPairs = OfPairs-bind (compile_html_selector lib (codes "input[name]")) _ λ inputs e.
      OfPairs-bind (scraped_inputs lib login.selectorinputs root ctx) _ λ scraped e'.
        OfPairs-bind (rendered_inputs lib login.selectors login.inputs scope root) _ λ rendered e''.
          (
            inputs,
            scraped,
            rendered,
            e,
            e',
            e'',
            upsert_all-OnceEach rendered _ (
                upsert_all-OnceEach scraped _
                  (upsert_all-OnceEach (form_inputs lib (select lib.scraper inputs form)) [] tt)),
            overlaid (form_inputs lib (select lib.scraper inputs form)) scraped rendered,
          )

  -- The pairs that a form login sends have each name once. The value is the one that the
  -- definition renders for it, or else the one that it scrapes, or else the one in the form.
  pub form_pairs-IsOverlaid :
      (pairs : List (Text × Text))
      → form_pairs lib login root form ctx scope ≡ ok pairs
      → IsOverlaid pairs
  form_pairs-IsOverlaid pairs h = subst OfPairs h form_pairs-OfPairs
