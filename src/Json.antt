-- ===== src/Json.antt =====
-- serde_json's `Value` and the accessors that the code calls on it. A number is one of serde_json's
-- three kinds; a float is kept as its text, since the code never computes with one.
use rust_zap.Prelude.{ℕ, String, Bool, Option, none, some, List, [], ◌∷◌, if◌then◌else◌, and_then}
use rust_zap.Dict.{◌==◌, string_eq}

mutual
  pub data Value : Type 0 where
    null : Value
    boolean : Bool → Value
    pos_int neg_int : ℕ → Value
    float : String → Value
    str : String → Value
    obj : Fields → Value
    arr : Items → Value

  pub data Fields : Type 0 where
    end : Fields
    field : String → Value → Fields → Fields

  pub data Items : Type 0 where
    nil : Items
    cons : Value → Items → Items

unfoldable pub get_field : String → Fields → Option Value
get_field k end = none
get_field k (field j v r) = if j == k then some v else get_field k r

-- `value.get(key)`, and `value[key]` read through `as_…`, which gives `null` where `get` gives none.
unfoldable pub get : String → Value → Option Value
unfolding get_field
get k (obj r) = get_field k r
get k null = none
get k (boolean b) = none
get k (pos_int n) = none
get k (neg_int n) = none
get k (float t) = none
get k (str t) = none
get k (arr xs) = none

unfoldable pub set_field : String → Value → Fields → Fields
set_field k v end = field k v end
set_field k v (field j w r) = if j == k then field j v r else field j w (set_field k v r)

-- `value[key] = v` on an object. On `null` Rust makes an object of it; elsewhere it panics, which
-- no caller meets, since each writes to an object that it has read a field of or has built.
unfoldable pub set : String → Value → Value → Value
unfolding set_field
set k v (obj r) = obj (set_field k v r)
set k v null = obj (field k v end)
set k v other = other

unfoldable pub remove_field : String → Fields → Fields
remove_field k end = end
remove_field k (field j v r) = if j == k then remove_field k r else field j v (remove_field k r)

-- `object.remove(key)` after `as_object_mut`
unfoldable pub remove : String → Value → Value
unfolding remove_field
remove k (obj r) = obj (remove_field k r)
remove k other = other

abbrev pub as_str : Value → Option String
as_str (str t) = some t
as_str other = none

abbrev pub as_bool : Value → Option Bool
as_bool (boolean b) = some b
as_bool other = none

abbrev pub as_u64 : Value → Option ℕ
as_u64 (pos_int n) = some n
as_u64 other = none

abbrev pub as_array : Value → Option Items
as_array (arr xs) = some xs
as_array other = none

-- `value.get(key).and_then(Value::as_str)`, and the same for the other accessors.
abbrev pub get_str : String → Value → Option String
get_str k v = and_then (get k v) as_str

abbrev pub get_bool : String → Value → Option Bool
get_bool k v = and_then (get k v) as_bool

abbrev pub get_u64 : String → Value → Option ℕ
get_u64 k v = and_then (get k v) as_u64

-- What `json!` makes of an `Option<String>` and of a text.
abbrev pub of_option : Option String → Value
of_option none = null
of_option (some t) = str t

abbrev pub fields_of : List (String × Value) → Fields
fields_of [] = end
fields_of ((k, v) ∷ r) = field k v (fields_of r)

-- `json!({ … })`
abbrev pub object : List (String × Value) → Value
object r = obj (fields_of r)
