-- ===== src/Json.antt =====
-- `serde_json::Value`, as far as the library's code looks into it. A number is kept as the text that
-- `to_string` prints for it. The fields of an object stand in the order of their keys.
pub mod Equality
use praefectus.Prelude.{
  Bool, String, Option, none, some, str_eq, if◌then◌else◌, and_then, is_some_and, List, [], ◌∷◌,
}

mutual
  pub data Value : Type 0 where
    null : Value
    boolean : Bool → Value
    number : String → Value
    string : String → Value
    array : Values → Value
    object : Fields → Value

  pub data Values : Type 0 where
    nil : Values
    cons : Value → Values → Values

  pub data Fields : Type 0 where
    end : Fields
    field : String → Value → Fields → Fields

abbrev get_field : String → Fields → Option Value
get_field k end = none
get_field k (field j v fs) = if str_eq j k then some v else get_field k fs

-- `Value::get` with a text, and `Value::as_str`.
abbrev pub get : String → Value → Option Value
get k (object fs) = get_field k fs
get k _ = none

abbrev pub as_str : Option Value → Option String
as_str (some (string s)) = some s
as_str _ = none

-- `Value::pointer` for a path of names of fields.
abbrev pub pointer : List String → Value → Option Value
pointer [] v = some v
pointer (k ∷ ks) v = and_then (get k v) (pointer ks)

abbrev pub as_bool : Value → Option Bool
as_bool (boolean b) = some b
as_bool _ = none

-- The text of a number.
abbrev pub as_number : Value → Option String
as_number (number s) = some s
as_number _ = none

abbrev list_of : Values → List Value
list_of nil = []
list_of (cons v vs) = v ∷ list_of vs

abbrev pub as_array : Value → Option (List Value)
as_array (array vs) = some (list_of vs)
as_array _ = none

-- `v.get(k).and_then(Value::as_bool) == Some(true)`.
abbrev pub is_true_in : String → Value → Bool
is_true_in k v = is_some_and (and_then (get k v) as_bool) (λ b. b)
