-- ===== src/Search/Carried.antt =====
-- How a request carries its inputs in crates/oxidarr-indexer/src/builder.rs: what each rendered input adds, and the
-- query of a GET.
use oxidarr.Common.{
  ◌≡◌, refl, sym, ap, ◌∙◌, Bool, false, not, ◌&&◌, Option, none, some, List, [], ◌∷◌, ◌++◌, filter,
  All, Text, subst, codes, text_eq, if◌then◌else◌, Bool-cases, inl, inr,
}
use mathlib.Core.List.{append-nil, append_assoc}
use oxidarr.Common.Outcome.{Outcome, ok, >>=-eq-ok}
use oxidarr.Common.Split.{join}
use oxidarr.Common.Str.{trim}
use oxidarr.Http.{Url, Method}
use oxidarr.Model.{Definition}
use oxidarr.Template.{Scope, Regex, is_empty}
use oxidarr.Search.Inputs.{classify, render_part, render_input}
use oxidarr.Search.Build.{
  Urls, Inputs, join_query, or_blank, with_pairs, with_raws, collect_input, collect_inputs,
}

pub ok_injective : {E A : Type 0} {a b : A} → ◌≡◌ {A = Outcome E A} (ok a) (ok b) → a ≡ b
ok_injective h = cc

-- What stands in one list and what stands at its place in the other are related.
abbrev pub Pairwise : {A B : Type 0} → (A → B → Type 0) → List A → List B → Type 0
Pairwise R [] [] = Unit
Pairwise R [] (b ∷ ys) = ⊥
Pairwise R (a ∷ xs) [] = ⊥
Pairwise R (a ∷ xs) (b ∷ ys) = R a b × Pairwise R xs ys

-- What each element adds, in order.
abbrev pub each : {A B : Type 0} → (A → List B) → List A → List B
each f [] = []
each f (x ∷ xs) = f x ++ each f xs

-- A query that is there and not empty.
abbrev pub held_query : Option Text → List Text
held_query none = []
held_query (some []) = []
held_query (some (c ∷ q)) = (c ∷ q) ∷ []

-- The raw fragment of an input that is one.
abbrev pub fragment : Text × Text → List Text
fragment (k, v) = if text_eq k (codes "$raw") then (if is_empty v then [] else v ∷ []) else []

module _ (urls : Urls) (allow_empty : Bool) where
  -- The pair of an input, unless it is blank and that is not allowed.
  abbrev pub own_pair : Text → Text → List (Text × Text)
  own_pair k v = if is_empty (trim v) && not allow_empty then [] else (k, v) ∷ []

  -- The pairs that an input adds to a GET.
  abbrev pub query_pairs : Text × Text → List (Text × Text)
  query_pairs (k, v) = if text_eq k (codes "$raw") then [] else own_pair k v

  -- The pairs that an input adds to a POST: those of a raw fragment are read from it.
  abbrev pub posted_pairs : Text × Text → List (Text × Text)
  posted_pairs (k, v) =
      if text_eq k (codes "$raw")
      then (if is_empty v then [] else filter (λ kv. not (is_empty kv.0)) (urls.parse_form v))
      else own_pair k v

abbrev Filled : Text → Type 0
Filled s = is_empty s ≡ false

join-append :
    (a f : Text) (rest : List Text)
    → join (codes "&") ((a ++ f) ∷ rest) ≡ a ++ join (codes "&") (f ∷ rest)
unfolding join
join-append a f [] = refl
join-append a f (r ∷ rest) =
    ap (λ t. t ++ join (codes "&") (r ∷ rest)) (append_assoc a f (codes "&"))
    ∙ append_assoc a (f ++ codes "&") (join (codes "&") (r ∷ rest))

join_query-Filled :
    (q : Text) (rest : List Text) → Filled q → join_query q rest ≡ join (codes "&") (q ∷ rest)
unfolding join
join_query-Filled [] rest h = cc
join_query-Filled (c ∷ q) [] h = refl
join_query-Filled (c ∷ q) (f ∷ rest) h =
    join_query-Filled ((c ∷ q ++ codes "&") ++ f) rest refl
    ∙ join-append (c ∷ q ++ codes "&") f rest

-- The loop over the fragments joins them, behind the query that is there.
join_query_lem :
    (q : Option Text) (s : Text) (raws : List Text)
    → Filled s
    → join_query (or_blank q) (s ∷ raws) ≡ join (codes "&") (held_query q ++ s ∷ raws)
join_query_lem none s raws h = join_query-Filled s raws h
join_query_lem (some []) s raws h = join_query-Filled s raws h
join_query_lem (some (c ∷ q)) s raws h = join_query-Filled (c ∷ q) (s ∷ raws) refl

module _ (urls : Urls) where
  -- A URL with pairs added to its query, and then with raw fragments after it.
  abbrev pub query_url : List (Text × Text) → List Text → Url → Url
  query_url [] [] url = url
  query_url (kv ∷ pairs) [] url = urls.extend_pairs (kv ∷ pairs) url
  query_url [] (s ∷ raws) url =
      urls.set_query (join (codes "&") (held_query (urls.query url) ++ s ∷ raws)) url
  query_url (kv ∷ pairs) (s ∷ raws) url =
      let extended = urls.extend_pairs (kv ∷ pairs) url in
      urls.set_query (join (codes "&") (held_query (urls.query extended) ++ s ∷ raws)) extended

  -- The URL of a GET, from its pairs and fragments that are not empty.
  pub placed :
      (pairs : List (Text × Text)) (raws : List Text) (url : Url)
      → All Filled raws
      → with_raws urls raws (with_pairs urls pairs url) ≡ query_url pairs raws url
  placed [] [] url h = refl
  placed (kv ∷ pairs) [] url h = refl
  placed [] (s ∷ raws) url h =
      ap (λ q. urls.set_query q url) (join_query_lem (urls.query url) s raws h.0)
  placed (kv ∷ pairs) (s ∷ raws) url h =
      let extended = urls.extend_pairs (kv ∷ pairs) url in
      ap (λ q. urls.set_query q extended) (join_query_lem (urls.query extended) s raws h.0)

abbrev plus : Inputs → Inputs → Inputs
plus before added = (before.0 ++ added.0, before.1 ++ added.1)

inputs_eq :
    {ps qs : List (Text × Text)} {rs ss : List Text}
    → ps ≡ qs
    → rs ≡ ss
    → ◌≡◌ {A = Inputs} (ps, rs) (qs, ss)
inputs_eq h k = cc

plus-nothing : (before : Inputs) → before ≡ plus before ([], [])
plus-nothing (ps, rs) = inputs_eq (sym (append-nil ps)) (sym (append-nil rs))

-- A search sends nothing but GET and POST.
abbrev pub IsSent : Method → Type 0
IsSent Method.get = Unit
IsSent Method.post = Unit
IsSent method = ⊥

module _ (urls : Urls) (allow_empty : Bool) where
  -- What a rendered input adds to the pairs and the fragments, by the method.
  abbrev pub gives : Method → Text × Text → Inputs
  gives Method.post kv = (posted_pairs urls allow_empty kv, [])
  gives method kv = (query_pairs urls allow_empty kv, fragment kv)

  collect_input-plus :
      (method : Method) (k v : Text) (before : Inputs)
      → IsSent method
      → collect_input urls method (classify k allow_empty v) before
        ≡ plus before (gives method (k, v))
  unfolding collect_input classify
  collect_input-plus Method.get k v (ps, rs) sent = elim (Bool-cases (text_eq k (codes "$raw"))) [
    | inl e ↦ elim (Bool-cases (is_empty v)) [
      | inl f ↦ rw (e, f) (plus-nothing (ps, rs))
      | inr f ↦ rw (e, f) (inputs_eq (sym (append-nil ps)) refl)
    ]
    | inr e ↦ elim (Bool-cases (is_empty (trim v) && not allow_empty)) [
      | inl f ↦ rw (e, f) (plus-nothing (ps, rs))
      | inr f ↦ rw (e, f) (inputs_eq refl (sym (append-nil rs)))
    ]
  ]
  collect_input-plus Method.post k v (ps, rs) sent = elim (Bool-cases (text_eq k (codes "$raw"))) [
    | inl e ↦ elim (Bool-cases (is_empty v)) [
      | inl f ↦ rw (e, f) (plus-nothing (ps, rs))
      | inr f ↦ rw (e, f) (inputs_eq refl (sym (append-nil rs)))
    ]
    | inr e ↦ elim (Bool-cases (is_empty (trim v) && not allow_empty)) [
      | inl f ↦ rw (e, f) (plus-nothing (ps, rs))
      | inr f ↦ rw (e, f) (inputs_eq refl (sym (append-nil rs)))
    ]
  ]
  collect_input-plus Method.put k v before sent = elim sent [ ]
  collect_input-plus Method.delete k v before sent = elim sent [ ]

  -- What rendered inputs add, in order.
  abbrev pub given : Method → List (Text × Text) → Inputs
  given method texts =
      (each (λ kv. (gives method kv).0) texts, each (λ kv. (gives method kv).1) texts)

  plus-given :
      (method : Method) (before : Inputs) (kv : Text × Text) (texts : List (Text × Text))
      → plus (plus before (gives method kv)) (given method texts)
        ≡ plus before (given method (kv ∷ texts))
  plus-given method (ps, rs) kv texts =
      inputs_eq (append_assoc ps (gives method kv).0 _) (append_assoc rs (gives method kv).1 _)

  fragment-Filled : (kv : Text × Text) → All Filled (fragment kv)
  fragment-Filled (k, v) = elim (Bool-cases (text_eq k (codes "$raw"))) [
    | inl e ↦ elim (Bool-cases (is_empty v)) [ inl f ↦ rw (e, f) tt | inr f ↦ rw (e, f) (f, tt) ]
    | inr e ↦ rw e tt
  ]

  Filled-append :
      (raws more : List Text) → All Filled raws → All Filled more → All Filled (raws ++ more)
  Filled-append [] more h k = k
  Filled-append (s ∷ raws) more h k = (h.0, Filled-append raws more h.1 k)

  pub given-Filled : (texts : List (Text × Text)) → All Filled (each fragment texts)
  given-Filled [] = tt
  given-Filled (kv ∷ texts) =
      Filled-append (fragment kv) (each fragment texts) (fragment-Filled kv) (given-Filled texts)

module _ (urls : Urls) {P : Type 0} (regex : Regex P) (debug : Text → Text) (def : Definition)
    (scope : Scope) where
  -- A name with a template, and the same name with the text that it renders as.
  abbrev pub Renders : Text × Text → Text × Text → Type 0
  Renders source out = (out.0 ≡ source.0) × (render_part regex debug def scope source.1 ≡ ok out.1)

  pub collect_inputs-Renders :
      (method : Method)
      → IsSent method
      → (inputs : List (Text × Text)) (before after : Inputs)
      → collect_inputs urls regex debug def scope method inputs before ≡ ok after
      → (texts : List (Text × Text)) × Pairwise Renders inputs texts
        × (after ≡ plus before (given urls def.search.allow_empty_inputs method texts))
  unfolding collect_inputs render_input
  collect_inputs-Renders method sent [] before after h =
      ([], tt, sym (ok_injective h) ∙ plus-nothing before)
  collect_inputs-Renders method sent ((key, template) ∷ rest) before after h =
      let allow = def.search.allow_empty_inputs in
      let (rendered, r, h1) =
        >>=-eq-ok (render_input regex debug def scope key template allow)
          (λ rendered.
            collect_inputs urls regex debug def scope method rest
              (collect_input urls method rendered before))
          h in
      let (t, e, same) =
        >>=-eq-ok (render_part regex debug def scope template) (λ t. ok (classify key allow t)) r in
      let next : collect_inputs urls regex debug def scope method rest
            (plus before (gives urls allow method (key, t)))
          ≡ ok after =
        subst (λ i. collect_inputs urls regex debug def scope method rest i ≡ ok after)
          (ap (λ x. collect_input urls method x before) (sym (ok_injective same))
            ∙ collect_input-plus urls allow method key t before sent)
          h1 in
      let (texts, all, eq) =
        collect_inputs-Renders method sent rest (plus before (gives urls allow method (key, t)))
          after next in
      ((key, t) ∷ texts, ((refl, e), all), eq ∙ plus-given urls allow method before (key, t) texts)
