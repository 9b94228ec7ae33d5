-- ===== src/Registry/Live.antt =====
-- worker_agent/registry/mcp_live_client.py: the tools of the registered MCP servers, with the two
-- caches. The answers of the registry and of the servers are arguments: none where anything is
-- raised on the way. The clock is read once for each fetch. A server has a name and a URL, and a
-- tool a name; the documents that lack one are left out.
pub mod Fresh
mod Tests
use chat_aiagent.Prelude.{
  ℕ, suc, ◌+◌, Option, none, some, List, [], ◌∷◌, ◌++◌, String, Bool, true, false, Text, Dict,
  codes, text_eq, ltb, or_else, if◌then◌else◌,
}
use chat_aiagent.Prelude.Json.{Json, str}
use chat_aiagent.Registry.Base.{ToolContract}
use chat_aiagent.Registry.Schemas.{Schema, map_type}

pub record Server : Type 0 where
  pub name : Text
  pub url : Text

pub record Tool : Type 0 where
  pub name : Text
  pub description : Option Text
  -- inputSchema.properties
  pub properties : Dict Schema

-- An entry of a cache has the time until which it is good.
pub record LiveClient : Type 0 where
  pub registry_url : Text
  pub ttl : ℕ
  pub server_cache : Option (ℕ × List Server)
  pub tool_cache : List (Text × (ℕ × List Tool))

abbrev pub at_url {ℓ} : {A : Type ℓ} → Text → List (Text × A) → Option A
at_url u [] = none
at_url u ((v, a) ∷ rest) = let later = at_url u rest in if text_eq v u then some a else later

abbrev pub set_url {ℓ} : {A : Type ℓ} → Text → A → List (Text × A) → List (Text × A)
set_url u a [] = (u, a) ∷ []
set_url u a ((v, b) ∷ rest) =
    let later = set_url u a rest in if text_eq v u then (u, a) ∷ rest else (v, b) ∷ later

-- The entry of a cache, while it is good.
abbrev pub good {ℓ} : {A : Type ℓ} → ℕ → Option (ℕ × A) → Option A
good now none = none
good now (some (until, a)) = if ltb now until then some a else none

abbrev listed : ℕ → LiveClient → Option (List Server) → LiveClient × List Server
listed now c none = (c, [])
listed now c (some servers) = (record c { server_cache = some (now + c.ttl, servers) }, servers)

unfoldable pub fetch_server_list :
    (Text → Option (List Server)) → ℕ → LiveClient → LiveClient × List Server
fetch_server_list get_servers now c = elim (good now c.server_cache) [
  | some servers ↦ (c, servers)
  | none ↦ listed now c (get_servers (c.registry_url ++ codes "/mcp-servers"))
]

abbrev pub kept : ℕ → Text → LiveClient → Option (List Tool) → LiveClient × List Tool
kept now url c none = (c, [])
kept now url c (some tools) =
    (record c { tool_cache = set_url url (now + c.ttl, tools) c.tool_cache }, tools)

unfoldable pub fetch_tools :
    (Text → Option (List Tool)) → ℕ → Text → LiveClient → LiveClient × List Tool
fetch_tools list_tools now url c = elim (good now (at_url url c.tool_cache)) [
  | some tools ↦ (c, tools)
  | none ↦ kept now url c (list_tools url)
]

abbrev typed : String → Option Text → Option (Dict Text) → Option (Dict Text)
typed k (some t) (some rest) = some ((k, t) ∷ rest)
typed k _ _ = none

-- `{k: _map_type(v) for k, v in props.items()}`; none where a type raises
unfoldable pub types : Dict Schema → Option (Dict Text)
types [] = some []
types ((k, v) ∷ rest) = typed k (map_type v) (types rest)

abbrev pub live_name : Text → Text → Text
live_name server bare = codes "mcp::" ++ (server ++ (codes "::" ++ bare))

unfoldable pub to_contract : Server → Tool → Option ToolContract
unfolding types
to_contract s t = elim (types t.properties) [
  | none ↦ none
  | some schema ↦ some (record {
    name = live_name s.name t.name;
    domain = none;
    description = or_else t.description [];
    input_schema = schema;
    output_description = [];
    version = "live";
    owner = s.name;
    tool_type = "mcp_live";
    endpoint = ("server_url", str s.url) ∷ ("mcp_tool_name", str t.name) ∷ [];
  })
]

abbrev also {ℓ} : {A : Type ℓ} → Option A → Option (List A) → Option (List A)
also (some a) (some rest) = some (a ∷ rest)
also _ _ = none

abbrev then_all {ℓ} :
    {A : Type ℓ} → List A → LiveClient × Option (List A) → LiveClient × Option (List A)
then_all l (c, none) = (c, none)
then_all l (c, some rest) = (c, some (l ++ rest))

unfoldable pub contracts : Server → List Tool → Option (List ToolContract)
unfolding to_contract
contracts s [] = some []
contracts s (t ∷ ts) = also (to_contract s t) (contracts s ts)

-- The loop over the servers; `clock` gives the time of each fetch.
unfoldable pub from_servers :
    (Text → Option (List Tool))
    → (ℕ → ℕ)
    → ℕ
    → List Server
    → LiveClient
    → LiveClient × Option (List ToolContract)
unfolding fetch_tools contracts
from_servers list_tools clock i [] c = (c, some [])
from_servers list_tools clock i (s ∷ ss) c =
    let (c', tools) = fetch_tools list_tools (clock i) s.url c in
    elim (contracts s tools) [
      | none ↦ (c', none)
      | some cs ↦ then_all cs (from_servers list_tools clock (suc i) ss c')
    ]

unfoldable pub list_tools_all :
    (Text → Option (List Server))
    → (Text → Option (List Tool))
    → (ℕ → ℕ)
    → LiveClient
    → LiveClient × Option (List ToolContract)
unfolding fetch_server_list from_servers
list_tools_all get_servers list_tools clock c =
    let (c', servers) = fetch_server_list get_servers (clock 0) c in
    from_servers list_tools clock 1 servers c'

unfoldable pub flush_cache : LiveClient → LiveClient
flush_cache c = record c { server_cache = none; tool_cache = [] }
