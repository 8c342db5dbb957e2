-- ===== src/Search/Settings.antt =====
-- The `.Config` variables of a search's templates, in crates/oxidarr-indexer/src/query.rs.
use oxidarr.Common.{
  ◌≡◌, refl, ap, ◌∙◌, Bool, true, false, Option, none, some, List, [], ◌∷◌, ◌++◌, Text, codes,
  text_eq, text_eq→eq, subst, if◌then◌else◌,
}
use oxidarr.Common.Ordered.{
  get, put, get-put, get_last, later_or, get_last-get, later_or-none, IsSorted, put-IsSorted,
}
use oxidarr.Model.{Setting, Definition}
use oxidarr.Template.{Scope, get_or_default, lookup, set_config, strip_prefix}
use oxidarr.Template.Laws.{get_or_default-insert}
use oxidarr.Search.Query.{
  SearchQuery, Settings, or_default, setting_value, resolve_onto, resolved, new_scope, set_configs,
  set_query_variables, scope_for,
}

-- The last setting with a name.
unfoldable pub declared : Text → List Setting → Option Setting
declared name [] = none
declared name (setting ∷ rest) =
    later_or (if text_eq setting.name name then some setting else none) (declared name rest)

-- What a setting is for a search, from the value that the user gave and the setting declared.
abbrev pub config_value : Option Text → Option Setting → Text
config_value user none = []
config_value (some v) (some setting) = v
config_value none (some setting) = or_default setting.default

abbrev pub value_of : Settings → Option Setting → Option Text
value_of settings none = none
value_of settings (some setting) = some (setting_value settings setting)

module _ (settings : Settings) (name : Text) where
  later_value :
      (held : Option Text) (setting : Setting) (b : Bool) (found : Option Setting)
      → later_or
          (if b then some (setting_value settings setting) else held)
          (value_of settings found)
        ≡ later_or held (value_of settings (later_or (if b then some setting else none) found))
  later_value held setting b (some s) = refl
  later_value held setting true none = refl
  later_value held setting false none = refl

  get-resolve_onto :
      (list : List Setting) (map : List (Text × Text))
      → get name (resolve_onto settings list map)
        ≡ later_or (get name map) (value_of settings (declared name list))
  unfolding resolve_onto declared
  get-resolve_onto [] map = refl
  get-resolve_onto (setting ∷ rest) map =
      get-resolve_onto rest (put setting.name (setting_value settings setting) map)
      ∙ ap (λ o. later_or o (value_of settings (declared name rest)))
          (get-put name setting.name (setting_value settings setting) map)
      ∙ later_value (get name map) setting (text_eq setting.name name) (declared name rest)

resolve_onto-IsSorted :
    (settings : Settings) (list : List Setting) (map : List (Text × Text))
    → IsSorted map
    → IsSorted (resolve_onto settings list map)
unfolding resolve_onto
resolve_onto-IsSorted settings [] map s = s
resolve_onto-IsSorted settings (setting ∷ rest) map s =
    resolve_onto-IsSorted settings rest (put setting.name (setting_value settings setting) map)
      (put-IsSorted setting.name (setting_value settings setting) map s)

later_text :
    (o : Option Text) (b : Bool) (v held : Text)
    → or_default (later_or (some (if b then v else held)) o)
      ≡ or_default (later_or (some held) (later_or (if b then some v else none) o))
later_text none true v held = refl
later_text none false v held = refl
later_text (some w) b v held = refl

config-set_configs :
    (name : Text) (pairs : List (Text × Text)) (scope : Scope)
    → get_or_default name (set_configs pairs scope).config
      ≡ or_default (later_or (some (get_or_default name scope.config)) (get_last name pairs))
unfolding set_configs set_config get_last
config-set_configs name [] scope = refl
config-set_configs name ((k, v) ∷ rest) scope =
    config-set_configs name rest (set_config k v scope)
    ∙ ap (λ t. or_default (later_or (some t) (get_last name rest)))
        (get_or_default-insert k v scope.config name)
    ∙ later_text (get_last name rest) (text_eq k name) v (get_or_default name scope.config)

or_blank : (o : Option Text) → or_default (later_or (some []) o) ≡ or_default o
or_blank none = refl
or_blank (some s) = refl

-- The setting found has the name.
abbrev IsNamed : Text → Option Setting → Type 0
IsNamed name none = Unit
IsNamed name (some setting) = setting.name ≡ name

later_or-IsNamed :
    (name : Text) (o later : Option Setting)
    → IsNamed name o
    → IsNamed name later
    → IsNamed name (later_or o later)
later_or-IsNamed name none none h k = tt
later_or-IsNamed name (some s) none h k = h
later_or-IsNamed name none (some s) h k = k
later_or-IsNamed name (some s) (some t) h k = k

declared-IsNamed : (name : Text) (list : List Setting) → IsNamed name (declared name list)
unfolding declared
declared-IsNamed name [] = tt
declared-IsNamed name (setting ∷ rest) =
    later_or-IsNamed name _ (declared name rest) (here (text_eq setting.name name) refl)
      (declared-IsNamed name rest)
  where
    here :
        (b : Bool) → text_eq setting.name name ≡ b → IsNamed name (if b then some setting else none)
    here true e = text_eq→eq setting.name name e
    here false e = tt

or_default-value_of :
    (settings : Settings) (name : Text) (found : Option Setting)
    → IsNamed name found
    → or_default (value_of settings found) ≡ config_value (get name settings) found
unfolding setting_value
or_default-value_of settings name none h = refl
or_default-value_of settings name (some setting) h =
    subst (λ n. setting_value settings setting ≡ config_value (get n settings) (some setting)) h
      (held (get setting.name settings) refl)
  where
    held :
        (user : Option Text)
        → get setting.name settings ≡ user
        → setting_value settings setting ≡ config_value (get setting.name settings) (some setting)
    held none e = rw e refl
    held (some v) e = rw e refl

config-scope_for :
    (def : Definition) (query : SearchQuery) (settings : Settings) (categories : List Text)
    (name : Text)
    → lookup (scope_for def query settings categories) (codes ".Config." ++ name)
      ≡ get_or_default name (set_configs (resolved settings def) new_scope).config
unfolding lookup strip_prefix scope_for set_query_variables
config-scope_for def query settings categories name = refl

-- `.Config.name` in a template of a search is the value that the user gave for the last setting
-- of this name that the definition declares, or else that setting's default, and it is empty if
-- the definition declares none.
pub lookup-scope_for :
    (def : Definition) (query : SearchQuery) (settings : Settings) (categories : List Text)
    (name : Text)
    → lookup (scope_for def query settings categories) (codes ".Config." ++ name)
      ≡ config_value (get name settings) (declared name def.settings)
unfolding resolved get_or_default get
lookup-scope_for def query settings categories name =
    config-scope_for def query settings categories name
    ∙ config-set_configs name (resolved settings def) new_scope
    ∙ or_blank (get_last name (resolved settings def))
    ∙ ap or_default (
        get_last-get name (resolved settings def)
          (resolve_onto-IsSorted settings def.settings [] tt)
        ∙ get-resolve_onto settings name def.settings []
        ∙ later_or-none (value_of settings (declared name def.settings)))
    ∙ or_default-value_of settings name (declared name def.settings)
        (declared-IsNamed name def.settings)
