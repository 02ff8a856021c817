-- ===== src/Json.antt =====
-- A value decoded into `interface{}` by `encoding/json`: what `map[string]interface{}` payloads hold.
-- A JSON number is a `float64` there; the code only converts it to `int64`, so `num` keeps the
-- integer that this conversion gives. A map is a list of its fields, the first of a key counting.
pub mod Laws
use ubuntu_daemon.Base.{Bool, true, false, Option, none, some, Text, if◌then◌else◌}
use ubuntu_daemon.Base.Int.{ℤ}
use ubuntu_daemon.Text.{text_eq}

mutual
  pub data Value : Type 0 where
    null : Value
    bool : Bool → Value
    num : ℤ → Value
    str : Text → Value
    arr : Items → Value
    obj : Fields → Value

  pub data Items : Type 0 where
    nil : Items
    cons : Value → Items → Items

  pub data Fields : Type 0 where
    end : Fields
    field : Text → Value → Fields → Fields

-- `m[key]`, with the `ok` of the two-result form as `Option`.
unfoldable pub get : Fields → Text → Option Value
get end key = none
get (field k v fs) key = if text_eq k key then some v else get fs key

-- `m[key] = value`.
unfoldable pub put : Fields → Text → Value → Fields
put end key value = field key value end
put (field k v fs) key value =
    if text_eq k key then field k value fs else field k v (put fs key value)

-- `delete(m, key)`.
unfoldable pub delete : Fields → Text → Fields
delete end key = end
delete (field k v fs) key =
    let rest = delete fs key in if text_eq k key then rest else field k v rest

-- `len(m) == 0`.
unfoldable pub is_empty : Fields → Bool
is_empty end = true
is_empty (field k v fs) = false

abbrev pub as_string : Option Value → Option Text
as_string (some (str s)) = some s
as_string _ = none

abbrev pub as_map : Option Value → Option Fields
as_map (some (obj fs)) = some fs
as_map _ = none

abbrev pub as_bool : Option Value → Option Bool
as_bool (some (bool b)) = some b
as_bool _ = none

-- `text, ok := m[key].(string)`.
unfoldable pub get_string : Fields → Text → Option Text
unfolding get
get_string fs key = as_string (get fs key)

-- `nested, ok := m[key].(map[string]interface{})`.
unfoldable pub get_map : Fields → Text → Option Fields
unfolding get
get_map fs key = as_map (get fs key)
