-- ===== src/Definitions/Cache.antt =====
-- `DefinitionStore::get` in crates/oxidarr-prowl/src/definitions.rs as a cache: what it keeps and what it
-- reads.
use oxidarr.Common.{◌≡◌, refl, Option, none, some, List, [], ◌∷◌, ◌++◌, Text, text_eq_refl, arith}
use oxidarr.Common.Outcome.{ok}
use oxidarr.Common.Act.{Yields, Yields-bind, Yields-lift, Yields-pure, Yields-any, Yields-imp}
use oxidarr.Model.{Definition}
use oxidarr.Definitions.{
  Files, Store, validate_id, cached, or_insert, cache_insert, load_definition, load_and_insert,
  held_or_load, get,
}

cached-append :
    (id : Text) (def : Definition) (cache : List (Text × Definition))
    → cached id cache ≡ none
    → cached id (cache ++ (id, def) ∷ []) ≡ some def
unfolding cached
cached-append id def [] h = rw (text_eq_refl id) refl
cached-append id def ((k, d) ∷ rest) h = ground (arith, h, cached-append id def rest)

or_insert-cached :
    (id : Text) (def : Definition) (held : Option Definition) (s : Store)
    → cached id s.cache ≡ held
    → Yields (or_insert id def held) s (λ got t. cached id t.cache ≡ some got)
unfolding or_insert
or_insert-cached id def (some d) s h = Yields-lift (ok d) λ a e. ground (arith, h, e)
or_insert-cached id def none s h = record {
  at = λ got t e. ground (arith, cached-append id def s.cache h, e);
}

insert-cached :
    (id : Text) (def : Definition) (s : Store)
    → Yields (cache_insert id def) s (λ got t. cached id t.cache ≡ some got)
unfolding cache_insert
insert-cached id def s = record {
  at = λ got t e. (or_insert-cached id def (cached id s.cache) s refl).at got t e;
}

module _ (files : Files) where
  load-cached :
      (id : Text) (s : Store)
      → Yields (load_and_insert files id) s (λ got t. cached id t.cache ≡ some got)
  unfolding load_and_insert
  load-cached id s =
      Yields-bind _ _ (Yields-any (load_definition files id)) λ def t _. insert-cached id def t

  held_or_load-cached :
      (id : Text) (held : Option Definition) (s : Store)
      → cached id s.cache ≡ held
      → Yields (held_or_load files id held) s (λ got t. cached id t.cache ≡ some got)
  unfolding held_or_load
  held_or_load-cached id (some def) s h = Yields-pure def h
  held_or_load-cached id none s h = load-cached id s

  get-cached :
      (id : Text) (s : Store)
      → Yields (get files id) s (λ got t. (cached id t.cache ≡ some got) × (validate_id id ≡ ok tt))
  unfolding get
  get-cached id s =
      Yields-bind _ _
        (Yields-lift {Q = λ u t. (t ≡ s) × (validate_id id ≡ ok u)} (validate_id id)
          (λ u e. (refl, e)))
        λ u t (e, valid).
          Yields-imp _ (record { at = (held_or_load-cached id (cached id t.cache) t refl).at })
            λ got t' c. (c, valid)

  hit :
      (id : Text) (s : Store) (def : Definition)
      → validate_id id ≡ ok tt
      → cached id s.cache ≡ some def
      → get files id s ≡ (ok def, s)
  unfolding get held_or_load
  hit id s def valid h = rw (valid, h) refl

  -- A definition that was got is got again from the cache: the same one, without a read.
  get-get :
      (id : Text) (s : Store) (def : Definition) (t : Store)
      → get files id s ≡ (ok def, t)
      → get files id t ≡ (ok def, t)
  get-get id s def t e = let (held, valid) = (get-cached id s).at def t e in hit id t def valid held
