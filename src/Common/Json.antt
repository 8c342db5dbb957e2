-- ===== src/Common/Json.antt =====
-- `serde_json::Value`. A number is an integer, or a decimal that is no `i64`, kept as its text.
use oxidarr.Common.{String, Text, Bool, Option, none, some, str_eq, if◌then◌else◌}
use oxidarr.Common.Int.{ℤ}

mutual
  pub data Json : Type 0 where
    null : Json
    bool : Bool → Json
    int : ℤ → Json
    decimal : String → Json
    string : Text → Json
    array : Items → Json
    object : Fields → Json

  pub data Items : Type 0 where
    nil : Items
    item : Json → Items → Items

  pub data Fields : Type 0 where
    end : Fields
    field : String → Json → Fields → Fields

-- `Value::get` of a key, and `Value::as_i64`.
unfoldable pub get_field : String → Fields → Option Json
get_field key end = none
get_field key (field k v rest) = if str_eq k key then some v else get_field key rest

unfoldable pub get_key : String → Json → Option Json
unfolding get_field
get_key key (object fields) = get_field key fields
get_key key _ = none

unfoldable pub as_i64 : Option Json → Option ℤ
as_i64 (some (int n)) = some n
as_i64 _ = none
