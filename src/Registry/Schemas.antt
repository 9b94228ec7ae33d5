-- ===== src/Registry/Schemas.antt =====
-- The two mappings of a JSON Schema to the word of a type: `_json_schema_type` of
-- worker_agent/registry/scalable.py and `_map_type` of worker_agent/registry/mcp_live_client.py. Of a
-- schema the keys type, items and anyOf are read; an anyOf that is missing and one that is empty are
-- the same to both. A schema that is a string is a `word`, which has no keys: reading one raises
-- AttributeError, and the result is none. A type that is no string is left out.
pub mod Agree
mod Tests
use chat_aiagent.Prelude.{
  ℕ, suc, String, Bool, true, false, not, ◌&&◌, ◌||◌, Option, none, some, ◌++◌, Text, codes, ltb,
  ◌=s=◌, if◌then◌else◌,
}

mutual
  pub data Schema : Type 0 where
    word : Text → Schema
    node : Option String → Items → Schemas → Schema

  pub data Items : Type 0 where
    absent : Items
    items : Schema → Items

  pub data Schemas : Type 0 where
    nil : Schemas
    cons : Schema → Schemas → Schemas

-- `s.get("type") == "null"`, false for a word
abbrev pub is_null : Schema → Bool
is_null (node (some t) i ss) = t =s= "null"
is_null _ = false

abbrev pub is_word : Schema → Bool
is_word (word t) = true
is_word (node t i ss) = false

abbrev pub has_word : Schemas → Bool
has_word nil = false
has_word (cons s ss) = is_word s || has_word ss

abbrev pub any_null : Schemas → Bool
any_null nil = false
any_null (cons s ss) = is_null s || any_null ss

abbrev pub size : Schemas → ℕ
size nil = 0
size (cons s ss) = suc (size ss)

-- `len(non_null)`
abbrev pub non_null : Schemas → ℕ
non_null nil = 0
non_null (cons s ss) = let rest = non_null ss in if is_null s then rest else suc rest

abbrev pub listed : Option Text → Option Text
listed none = none
listed (some inner) = some (codes "list[" ++ (inner ++ codes "]"))

abbrev pub optional : Bool → Option Text → Option Text
optional nullable none = none
optional nullable (some base) = some (if nullable then base ++ codes " | None" else base)

-- The union of a list that is not empty: every item is asked for its type first.
abbrev pub union : Bool → Schemas → Option Text → Option Text
union nullable ss base = if has_word ss then none else optional nullable base

-- `_JSON_TO_STR.get(t, "any")`
abbrev pub scalar : String → Text
scalar t =
    if t =s= "string"
    then codes "str"
    else if t =s= "integer"
    then codes "int"
    else if t =s= "number"
    then codes "float"
    else if t =s= "boolean"
    then codes "bool"
    else codes "any"

-- What stands behind the test for the types, with `base` for the first item that is not null.
abbrev pub json_any_of : Schemas → Option Text → Option Text
json_any_of nil base = some (codes "any")
json_any_of (cons s ss) base = union (any_null (cons s ss)) (cons s ss) base

abbrev pub json_named : String → Schemas → Option Text → Option Text → Option Text
json_named t ss inner base =
    if t =s= "string"
    then some (codes "str")
    else if t =s= "integer"
    then some (codes "int")
    else if t =s= "boolean"
    then some (codes "bool")
    else if t =s= "number"
    then some (codes "float")
    else if t =s= "array"
    then listed inner
    else json_any_of ss base

abbrev pub json_node : Option String → Schemas → Option Text → Option Text → Option Text
json_node none ss inner base = json_any_of ss base
json_node (some t) ss inner base = json_named t ss inner base

-- `_json_schema_type`; `json_items` takes {} for missing items, `json_first` the first item that is
-- not null.
abbrev mutual
  pub json_schema_type : Schema → Option Text
  json_schema_type (word t) = some t
  json_schema_type (node t i ss) = json_node t ss (json_items i) (json_first ss)

  pub json_items : Items → Option Text
  json_items absent = some (codes "any")
  json_items (items s) = json_schema_type s

  pub json_first : Schemas → Option Text
  json_first nil = some (codes "any")
  json_first (cons s ss) =
      let rest = json_first ss in let here = json_schema_type s in if is_null s then rest else here

-- `t == "array"`, then a list of anyOf that is not empty, then the table.
abbrev pub map_any_of : Text → Schemas → Option Text → Option Text
map_any_of other nil base = some other
map_any_of other (cons s ss) base =
    union (ltb (non_null (cons s ss)) (size (cons s ss))) (cons s ss) base

abbrev pub map_node : Option String → Schemas → Option Text → Option Text → Option Text
map_node none ss inner base = map_any_of (codes "any") ss base
map_node (some t) ss inner base =
    if t =s= "array" then listed inner else map_any_of (scalar t) ss base

-- `_map_type`
abbrev mutual
  pub map_type : Schema → Option Text
  map_type (word t) = none
  map_type (node t i ss) = map_node t ss (map_items i) (map_first ss)

  pub map_items : Items → Option Text
  map_items absent = some (codes "any")
  map_items (items s) = map_type s

  pub map_first : Schemas → Option Text
  map_first nil = some (codes "any")
  map_first (cons s ss) =
      let rest = map_first ss in let here = map_type s in if is_null s then rest else here
