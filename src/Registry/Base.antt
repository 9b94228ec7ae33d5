-- ===== src/Registry/Base.antt =====
-- worker_agent/registry/base.py: the records that the registry serves. Scores are not computed with,
-- and are left out. The values of a tool record's input schema are kept as they are printed.
use chat_aiagent.Prelude.{
  String, Bool, Option, List, [], ◌∷◌, ◌++◌, Text, Dict, codes, join, filter, or_else,
}
use chat_aiagent.Prelude.Json.{Json}

pub record EntityFieldMeta : Type 0 where
  pub name : String
  pub type : String
  pub required : Bool
  pub description : Text
  pub pattern : Text

pub record SchemaMetadata : Type 0 where
  pub domain : String
  pub intents : Dict (List EntityFieldMeta)
  pub owner : String

-- "k: v" for each parameter, joined by ", ".
unfoldable pub signature : Dict Text → List Text
signature [] = []
signature ((k, v) ∷ ps) = (codes k ++ (codes ": " ++ v)) ∷ signature ps

pub record ToolContract : Type 0 where
  pub name : Text
  pub domain : Option String
  pub description : Text
  pub input_schema : Dict Text
  pub output_description : Text
  pub version : String
  pub owner : Text
  pub tool_type : String
  pub endpoint : Dict Json

unfoldable pub contract_signature : ToolContract → Text
unfolding signature
contract_signature t = join (codes ", ") (signature t.input_schema)

pub data Severity : Type 0 where
  hard soft : Severity

pub record PlaybookRule : Type 0 where
  pub id : Text
  pub description : Text
  pub before : List Text
  pub after : List Text
  pub tools : List Text
  pub pattern : Text
  pub severity : Severity

pub record Playbook : Type 0 where
  pub domain : String
  pub version : String
  pub rules : List PlaybookRule
  pub owner : String

abbrev is_hard : PlaybookRule → Bool
is_hard r = elim r.severity [ hard ↦ Bool.true | soft ↦ Bool.false ]

abbrev is_soft : PlaybookRule → Bool
is_soft r = elim r.severity [ hard ↦ Bool.false | soft ↦ Bool.true ]

unfoldable pub hard_rules : Playbook → List PlaybookRule
hard_rules p = filter is_hard p.rules

unfoldable pub soft_rules : Playbook → List PlaybookRule
soft_rules p = filter is_soft p.rules

pub record IntentSummary : Type 0 where
  pub action : String
  pub description : Option Text
  pub input_schema : List EntityFieldMeta
  pub tool_hints : List Text

pub record DomainRecord : Type 0 where
  pub name : String
  pub hint : Option Text
  pub intents : List IntentSummary

pub record ToolRecord : Type 0 where
  pub tool_name : Text
  pub domain : Option String
  pub description : Option Text
  pub input_schema : Option (Dict Text)
  pub output_description : Option Text
  pub endpoint : Option (Dict Json)
  pub tool_type : Option String

unfoldable pub record_signature : ToolRecord → Text
unfolding signature
record_signature t = join (codes ", ") (signature (or_else t.input_schema []))
