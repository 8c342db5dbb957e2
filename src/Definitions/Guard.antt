-- ===== src/Definitions/Guard.antt =====
-- `DefinitionStore::get` in crates/oxidarr-prowl/src/definitions.rs: which files it reads.
use oxidarr.Common.{
  ◌≡◌, refl, true, false, ◌||◌, Option, none, some, [], ◌∷◌, ◌++◌, Text, codes, text_eq, arith,
  Bool-cases, inl, inr, any, ◌==◌, ◌⊎◌,
}
use oxidarr.Common.Outcome.{Outcome, ok, err}
use oxidarr.Common.Act.{next}
use oxidarr.Model.{Definition}
use oxidarr.Definitions.{
  DefinitionError, Files, Store, is_plain_stem, contains_pair, slash, backslash, is_empty,
  validate_id, cached, or_insert, cache_insert, path_of, load_definition, load_and_insert,
  held_or_load, get, refresh,
}

-- A file name within the directory: not empty, not ".", no separator, and no "..".
pub record IsPlainStem (id : Text) : Type 0 where
  pub filled : is_empty id ≡ false
  pub no_dot : text_eq id (codes ".") ≡ false
  pub no_separator : any (λ c. c == slash || c == backslash) id ≡ false
  pub no_parent : contains_pair 46 46 id ≡ false

plain : (id : Text) → is_plain_stem id ≡ true → IsPlainStem id
unfolding is_plain_stem
plain id h = record {
  filled = ground (arith, h);
  no_dot = ground (arith, h);
  no_separator = ground (arith, h);
  no_parent = ground (arith, h);
}

-- The store after a `get`: nothing was read, or the file of a plain stem was. The directory is the
-- same.
abbrev pub ReadsOnly : Text → Store → Store → Type 0
ReadsOnly id s t =
    (t.dir ≡ s.dir)
    × ((t.reads ≡ s.reads) ⊎ ((t.reads ≡ s.reads ++ path_of s.dir id ∷ []) × IsPlainStem id))

or_insert-reads :
    (id : Text) (def : Definition) (held : Option Definition) (s : Store)
    → ((or_insert id def held s).1.reads ≡ s.reads) × ((or_insert id def held s).1.dir ≡ s.dir)
unfolding or_insert
or_insert-reads id def none s = (refl, refl)
or_insert-reads id def (some d) s = (refl, refl)

module _ (files : Files) where
  inserted :
      (id : Text) (r : Outcome DefinitionError Definition) (s : Store)
      → ((next (r, s) (cache_insert id)).1.reads ≡ s.reads)
        × ((next (r, s) (cache_insert id)).1.dir ≡ s.dir)
  unfolding cache_insert
  inserted id (ok def) s = or_insert-reads id def (cached id s.cache) s
  inserted id (err e) s = (refl, refl)

  load-reads :
      (id : Text) (s : Store)
      → ((load_and_insert files id s).1.reads ≡ s.reads ++ path_of s.dir id ∷ [])
        × ((load_and_insert files id s).1.dir ≡ s.dir)
  unfolding load_and_insert load_definition
  load-reads id s = inserted id _ (record s { reads = s.reads ++ path_of s.dir id ∷ [] })

  valid_reads :
      (id : Text) (held : Option Definition) (s : Store)
      → is_plain_stem id ≡ true
      → ReadsOnly id s (held_or_load files id held s).1
  unfolding held_or_load
  valid_reads id (some def) s h = (refl, inl refl)
  valid_reads id none s h = let (reads, dir) = load-reads id s in (dir, inr (reads, plain id h))

  -- Whatever its outcome, `get` reads no file, or the one file of its id in the directory; then the
  -- id is neither empty nor ".", and it holds no separator and no "..".
  pub get-reads : (id : Text) (s : Store) → ReadsOnly id s (get files id s).1
  unfolding get validate_id
  get-reads id s = elim (Bool-cases (is_plain_stem id)) [
    | inl e ↦ rw e (valid_reads id (cached id s.cache) s e)
    | inr e ↦ rw e (refl, inl refl)
  ]

  -- After `refresh`, `get` of a valid id reads its file again.
  pub get-refresh :
      (id : Text) (s : Store)
      → validate_id id ≡ ok tt
      → (get files id (refresh s).1).1.reads ≡ s.reads ++ path_of s.dir id ∷ []
  unfolding get refresh held_or_load cached
  get-refresh id s valid = rw valid ((load-reads id (record s { cache = [] })).0)

  failed_insert :
      (id : Text) (r : Outcome DefinitionError Definition) (s t : Store) (e : DefinitionError)
      → next (r, s) (cache_insert id) ≡ (err e, t)
      → t.cache ≡ s.cache
  unfolding cache_insert or_insert
  failed_insert id (err x) s t e h = ground (arith, h)
  failed_insert id (ok def) s t e h = never (cached id s.cache) h
    where
      never : (held : Option Definition) → or_insert id def held s ≡ (err e, t) → t.cache ≡ s.cache
      never none h = cc
      never (some d) h = cc

  held_or_load-failed :
      (id : Text) (held : Option Definition) (s t : Store) (e : DefinitionError)
      → held_or_load files id held s ≡ (err e, t)
      → t.cache ≡ s.cache
  unfolding held_or_load load_and_insert load_definition
  held_or_load-failed id (some def) s t e h = cc
  held_or_load-failed id none s t e h = failed_insert id _ _ t e h

  -- A `get` that fails leaves the cache as it was, so the next one tries again.
  pub get-failed :
      (id : Text) (s t : Store) (e : DefinitionError)
      → get files id s ≡ (err e, t)
      → t.cache ≡ s.cache
  unfolding get validate_id
  get-failed id s t e h = elim (Bool-cases (is_plain_stem id)) [
    | inl plain ↦ held_or_load-failed id (cached id s.cache) s t e (ground (arith, h, plain))
    | inr bad ↦ ground (arith, h, bad)
  ]
