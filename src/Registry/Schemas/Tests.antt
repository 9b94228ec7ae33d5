-- ===== src/Registry/Schemas/Tests.antt =====
-- A list of optional strings, and a schema on which the mappings differ.
use chat_aiagent.Prelude.{◌≡◌, refl, none, some, codes}
use chat_aiagent.Registry.Schemas.{
  Schema, node, absent, items, Schemas, nil, cons, map_type, json_schema_type,
}
use chat_aiagent.Registry.Schemas.Agree.{map_type-json_schema_type}

abbrev text_or_null : Schemas
text_or_null = cons (node (some "string") absent nil) (cons (node (some "null") absent nil) nil)

abbrev optional_texts : Schema
optional_texts = node (some "array") (items (node none absent text_or_null)) nil

map_type-json_schema_type_example :
    json_schema_type optional_texts ≡ some (codes "list[str | None]")
map_type-json_schema_type_example =
    map_type-json_schema_type optional_texts (codes "list[str | None]") refl refl

-- Beside an anyOf the scalar type counts for the one mapping, and the anyOf for the other.
differ_map_type : map_type (node (some "string") absent text_or_null) ≡ some (codes "str | None")
differ_map_type = refl

differ_json : json_schema_type (node (some "string") absent text_or_null) ≡ some (codes "str")
differ_json = refl
