-- ===== src/Definitions.antt =====
-- crates/oxidarr-prowl/src/definitions.rs: `DefinitionStore`, a read-through cache over a directory
-- of `<id>.yml` files. Reading a file and parsing its text are parameters; each read is logged.
pub mod Cache
pub mod Guard
use oxidarr.Common.{
  ℕ, ◌+◌, ◌==◌, Bool, true, false, not, ◌&&◌, ◌||◌, String, Option, none, some, List, [], ◌∷◌, ◌++◌,
  any, codes, Text, text_eq, if◌then◌else◌,
}
use oxidarr.Common.Outcome.{Outcome, ok, err}
use oxidarr.Common.Act.{Act, pure, fail, lift, ◌>>=◌, ◌>>◌}
use oxidarr.Model.{Definition}

pub data DefinitionError : Type 0 where
  io : Text → String → DefinitionError
  parse : Text → String → DefinitionError
  invalid_id : Text → DefinitionError

-- `std::fs` and `parse_definition`. `tick` counts the reads, since a file may change.
pub record Files : Type 0 where
  pub read_to_string : ℕ → Text → Outcome String Text
  pub parse_definition : Text → Outcome String Definition

-- The directory's path ends in its separator; `reads` are the paths read, in order.
pub record Store : Type 0 where
  pub dir : Text
  pub cache : List (Text × Definition)
  pub reads : List Text

abbrev pub slash : ℕ
slash = 47

abbrev pub backslash : ℕ
backslash = 92

-- `str::contains` of a two-byte needle.
unfoldable pub contains_pair : ℕ → ℕ → Text → Bool
contains_pair a b [] = false
contains_pair a b (c ∷ []) = false
contains_pair a b (c ∷ d ∷ rest) = c == a && d == b || contains_pair a b (d ∷ rest)

abbrev pub is_empty : Text → Bool
is_empty [] = true
is_empty (c ∷ rest) = false

unfoldable pub is_plain_stem : Text → Bool
unfolding contains_pair
is_plain_stem id =
    not (is_empty id)
    && not (text_eq id (codes "."))
    && not (any (λ c. c == slash || c == backslash) id)
    && not (contains_pair 46 46 id)

unfoldable pub validate_id : Text → Outcome DefinitionError (Unit {0})
validate_id id = if is_plain_stem id then ok tt else err (invalid_id id)

unfoldable pub cached : Text → List (Text × Definition) → Option Definition
cached id [] = none
cached id ((k, def) ∷ rest) = if text_eq k id then some def else cached id rest

-- `entry(id).or_insert(def)`: the definition that the cache holds afterwards.
unfoldable pub or_insert :
    Text → Definition → Option Definition → Act Store DefinitionError Definition
or_insert id def (some held) s = (ok held, s)
or_insert id def none s = (ok def, record s { cache = s.cache ++ (id, def) ∷ [] })

unfoldable pub cache_insert : Text → Definition → Act Store DefinitionError Definition
unfolding or_insert cached
cache_insert id def s = or_insert id def (cached id s.cache) s

-- `dir.join(format!("{id}.yml"))`
unfoldable pub path_of : Text → Text → Text
path_of dir id = dir ++ id ++ codes ".yml"

module _ (files : Files) where
  unfoldable pub parsed : Text → Outcome String Definition → Outcome DefinitionError Definition
  parsed path (ok def) = ok def
  parsed path (err source) = err (parse path source)

  unfoldable pub loaded : Text → Outcome String Text → Outcome DefinitionError Definition
  unfolding parsed
  loaded path (ok text) = parsed path (files.parse_definition text)
  loaded path (err source) = err (io path source)

  unfoldable pub load_definition : Text → Act Store DefinitionError Definition
  unfolding loaded path_of
  load_definition id s =
      let path = path_of s.dir id in
      (
        loaded path (files.read_to_string (count s.reads) path),
        record s { reads = s.reads ++ path ∷ [] },
      )
    where
      count : List Text → ℕ
      count reads = oxidarr.Common.length reads

  unfoldable pub load_and_insert : Text → Act Store DefinitionError Definition
  unfolding load_definition cache_insert
  load_and_insert id = do def ← load_definition id; cache_insert id def

  unfoldable pub held_or_load : Text → Option Definition → Act Store DefinitionError Definition
  unfolding load_and_insert
  held_or_load id (some def) = pure def
  held_or_load id none = load_and_insert id

  unfoldable pub get : Text → Act Store DefinitionError Definition
  unfolding validate_id cached held_or_load
  get id = do lift (validate_id id); λ s. held_or_load id (cached id s.cache) s

unfoldable pub refresh : Act Store DefinitionError (Unit {0})
refresh s = (ok tt, record s { cache = [] })
