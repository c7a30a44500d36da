-- ===== src/Json.antt =====
-- `serde_json::Value`, as the crate documents it, with the accessors that the program calls, the
-- errors of `serde::de::Error`, and the two text functions of the crate as an interface.
pub mod Reading
pub mod Merge
use nostrd.Base.{
  ℕ, String, ◌≡◌, refl, ◌⊎◌, inr, Option, none, some, List, [], ◌∷◌, ap, str_eq, if◌then◌else◌,
}

mutual
  -- `Value::Number` is split by `as_u64`: an `unsigned`, or another number with its text.
  pub data Value : Type 0 where
    null yes_value no_value : Value
    unsigned : ℕ → Value
    other_number : String → Value
    string : String → Value
    array : Items → Value
    object : Fields → Value

  pub data Items : Type 0 where
    nil : Items
    cons : Value → Items → Items

  -- The entries of a map, in the order of the text (the feature `preserve_order`).
  pub data Fields : Type 0 where
    end : Fields
    field : String → Value → Fields → Fields

unfoldable pub to_list : Items → List Value
to_list nil = []
to_list (cons v vs) = v ∷ to_list vs

unfoldable pub from_list : List Value → Items
from_list [] = nil
from_list (v ∷ vs) = cons v (from_list vs)

-- `Value::Array(vec)`
abbrev pub array_of : List Value → Value
array_of vs = array (from_list vs)

pub to_list-from_list : (vs : List Value) → to_list (from_list vs) ≡ vs
unfolding to_list from_list
to_list-from_list [] = refl
to_list-from_list (v ∷ vs) = ap (◌∷◌ v) (to_list-from_list vs)

-- `Map::insert` with `preserve_order`: a key that is there keeps its place and gets the new value.
unfoldable pub insert_field : String → Value → Fields → Fields
insert_field k v end = field k v end
insert_field k v (field j w rest) =
    if str_eq j k then field j v rest else field j w (insert_field k v rest)

-- `Deserialize for Value`: in a map, the last of the entries with one key stays.
unfoldable mutual
  pub merge : Value → Value
  merge (array vs) = array (merge_items vs)
  merge (object fs) = object (merge_fields fs end)
  merge null = null
  merge yes_value = yes_value
  merge no_value = no_value
  merge (unsigned n) = unsigned n
  merge (other_number s) = other_number s
  merge (string s) = string s

  pub merge_items : Items → Items
  merge_items nil = nil
  merge_items (cons v vs) = cons (merge v) (merge_items vs)

  pub merge_fields : Fields → Fields → Fields
  merge_fields end done = done
  merge_fields (field k v rest) done = merge_fields rest (insert_field k (merge v) done)

-- `Value::as_array`, `Value::as_str`, `Value::as_u64`
abbrev pub as_array : Value → Option (List Value)
as_array (array vs) = some (to_list vs)
as_array _ = none

abbrev pub as_str : Value → Option String
as_str (string s) = some s
as_str _ = none

abbrev pub as_u64 : Value → Option ℕ
as_u64 (unsigned n) = some n
as_u64 _ = none

-- The constructors of `serde::de::Error`, and a text that is no JSON.
pub data JsonError : Type 0 where
  custom : String → JsonError
  invalid_type : String → String → JsonError
  invalid_value : String → String → JsonError
  invalid_length : ℕ → String → JsonError
  missing_field : String → JsonError
  duplicate_field : String → JsonError
  no_variant : JsonError
  syntax : String → JsonError

-- The texts: `serde_json::to_string`, `serde_json::from_str` into a `Value`, and the message of an
-- error. What was printed is read back.
pub record JsonText : Type 0 where
  pub print : Value → String
  pub read : String → JsonError ⊎ Value
  pub message : JsonError → String
  pub read-print : (v : Value) → read (print v) ≡ inr v
