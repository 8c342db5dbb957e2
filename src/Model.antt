-- ===== src/Model.antt =====
-- crates/oxidarr-cardigann/src/model.rs: the parts of a definition that the modelled code reads. A
-- `BTreeMap` is a list of pairs in the order of its keys. Left out of `Definition` and `Search` are
-- the fields for display and downloads, and those that no code reads.
use oxidarr.Common.{
  ℕ, String, Bool, false, Option, none, some, List, [], ◌∷◌, any, Text, codes, show_nat, text_eq,
  map,
}
use oxidarr.Common.Int.{ℤ, pos, negsuc}

-- One row of `caps.categorymappings`.
pub record CategoryMapping : Type 0 where
  pub id : String
  pub cat : String
  pub desc : String
  pub default : Bool

pub record Setting : Type 0 where
  pub name : Text
  pub kind : Text
  pub label : Text
  pub default : Option Text
  pub options : List (Text × Text)

pub record Response : Type 0 where
  pub kind : Text
  pub no_results_message : Option Text

pub record SearchPath : Type 0 where
  pub path : Text
  pub method : Option Text
  pub inputs : List (Text × Text)
  pub categories : List String
  pub response : Option Response
  pub followredirect : Option Bool

pub data FilterArg : Type 0 where
  text : Text → FilterArg
  number : ℤ → FilterArg

pub data FilterArgs : Type 0 where
  no_args : FilterArgs
  one : FilterArg → FilterArgs
  many : List FilterArg → FilterArgs

-- `Display` of arguments, and `FilterArgs::to_vec`.
abbrev pub show_arg : FilterArg → Text
unfolding show_nat
show_arg (text s) = s
show_arg (number (pos n)) = show_nat n
show_arg (number (negsuc n)) = 45 ∷ show_nat (ℕ.suc n)

unfoldable pub to_vec : FilterArgs → List Text
unfolding show_arg
to_vec no_args = []
to_vec (one arg) = show_arg arg ∷ []
to_vec (many args) = map show_arg args

pub record FilterSpec : Type 0 where
  pub name : Text
  pub args : FilterArgs

pub record Field : Type 0 where
  pub selector : Option Text
  pub attribute : Option Text
  pub text : Option Text
  pub filters : List FilterSpec
  pub case : Option (List (Text × Text))
  pub default : Option Text
  pub remove : Option Text

pub record Rows : Type 0 where
  pub selector : Text
  pub after : Option ℕ

pub record ErrorRule : Type 0 where
  pub selector : Text
  pub message : Option Field

pub record LoginTest : Type 0 where
  pub path : Text
  pub selector : Option Text

-- Of a captcha only whether there is one is read.
pub record Login : Type 0 where
  pub path : Option Text
  pub method : Option Text
  pub inputs : List (Text × Text)
  pub test : Option LoginTest
  pub error : List ErrorRule
  pub form : Option Text
  pub submitpath : Option Text
  pub selectorinputs : List (Text × Field)
  pub cookies : List Text
  pub has_captcha : Bool
  pub selectors : Bool
  pub headers : List (Text × List Text)

pub record Search : Type 0 where
  pub paths : List SearchPath
  pub path : Option Text
  pub inputs : List (Text × Text)
  pub headers : List (Text × List Text)
  pub rows : Rows
  pub fields : List (Text × Field)
  pub allow_empty_inputs : Bool

pub record Definition : Type 0 where
  pub id : Text
  pub name : Text
  pub links : List Text
  pub categorymappings : List CategoryMapping
  pub settings : List Setting
  pub search : Search
  pub login : Option Login

abbrev is_json : Option Response → Bool
is_json none = false
is_json (some response) = text_eq response.kind (codes "json")

unfoldable pub declares_json_response : Definition → Bool
declares_json_response def = any (λ path. is_json path.response) def.search.paths
