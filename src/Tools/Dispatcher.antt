-- ===== src/Tools/Dispatcher.antt =====
-- worker_agent/tools/dispatcher.py, ToolDispatcher: from the name of a tool to its output, with the
-- cache in Redis. An entry of Redis has the time at which it expires.
pub mod Cached
pub mod Names
mod Tests
use chat_aiagent.Prelude.{
  ℕ, ◌+◌, String, Bool, true, false, ◌&&◌, ◌||◌, Option, none, some, List, [], ◌∷◌, ◌++◌, Text,
  Dict, lookup, lower, take, codes, text_eq, starts_with, find, or_else, if◌then◌else◌, ◌=s=◌, ltb,
}
use chat_aiagent.Prelude.Json.{Json, null, Fields}
use chat_aiagent.Registry.Base.{ToolContract}
use chat_aiagent.Registry.Live.{Server, LiveClient, fetch_server_list, at_url, set_url, good}
use chat_aiagent.Tools.Credentials
use chat_aiagent.Tools.Base.{Outside, Outcome, returned, refused, raised, text_at, filled}
use chat_aiagent.Tools.Executors.{dispatch_script, dispatch_rest, dispatch_builtin}
use chat_aiagent.Tools.Mcp.{dispatch_mcp, dispatch_mcp_live, name_parts}

abbrev pub Redis : Type 0
Redis = List (Text × (ℕ × Text))

pub record Dispatcher : Type 0 where
  pub redis : Option Redis
  pub live : Option LiveClient
  pub tool_cache_ttl : ℕ

-- What one dispatch meets: the tools that the registry lists, if it answers; the servers that it
-- lists to the live client; the clock and Redis at each access.
pub record Meets : Type 0 where
  pub list_tools : Option (List ToolContract)
  pub get_servers : Text → Option (List Server)
  pub fetched_at : ℕ
  pub read_at : ℕ
  pub read_fails : Bool
  pub written_at : ℕ
  pub write_fails : Bool

abbrev pub is_tool : Text → ToolContract → Bool
is_tool name c = text_eq c.name name

unfoldable pub resolve_contract : Text → Option (List ToolContract) → Outcome ToolContract
resolve_contract name none = raised
resolve_contract name (some cs) = elim (find (is_tool name) cs) [
  | none ↦ refused (codes "Tool '" ++ (name ++ codes "' not found in ToolRegistry"))
  | some c ↦ returned c
]

-- `getattr(contract, "tool_type", None) or "builtin"`
abbrev pub type_of : ToolContract → String
type_of c = if c.tool_type =s= "" then "builtin" else c.tool_type

abbrev pub is_cacheable : String → Bool
is_cacheable t = (t =s= "rest") || ((t =s= "script") || (t =s= "mcp"))

unfoldable pub extract_api_url : Outside → String → Dict Json → Fields → Option Text
unfolding text_at filled
extract_api_url o tool_type endpoint inputs =
    if tool_type =s= "rest"
    then some (filled o inputs (or_else (text_at "url" endpoint) []))
    else if tool_type =s= "script"
    then some (codes "inline:script")
    else if tool_type =s= "mcp"
    then text_at "server_url" endpoint
    else none

abbrev not_null : Option Json → Option Json
not_null (some null) = none
not_null j = j

-- The response of the contract that stands for the call, where USE_SYNTHETIC_DATA is "true".
unfoldable pub synthetic : Outside → Dict Json → Option Json
synthetic o endpoint =
    if text_eq (lower (or_else (o.environ (codes "USE_SYNTHETIC_DATA")) [])) (codes "true")
    then not_null (lookup "synthetic_response" endpoint)
    else none

unfoldable pub hash_inputs : Outside → Fields → Text
hash_inputs o inputs = take 16 (o.sha256_hex (o.dumps_sorted inputs))

unfoldable pub cache_key : Outside → Text → Fields → Text
unfolding hash_inputs
cache_key o name inputs = codes "tool:" ++ (name ++ (codes ":" ++ hash_inputs o inputs))

abbrev decoded : Outside → Option Text → Option Json
decoded o none = none
decoded o (some raw) = o.loads raw

-- What is read from Redis under a key, if it is there and can be decoded.
unfoldable pub cached : Outside → Meets → Text → Redis → Option Json
cached o m key r =
    if m.read_fails then none else decoded o (Credentials.given (good m.read_at (at_url key r)))

abbrev encoded : Meets → Text → ℕ → Option Text → Redis → Redis
encoded m key ttl none r = r
encoded m key ttl (some t) r = set_url key (m.written_at + ttl, t) r

unfoldable pub written : Outside → Meets → Text → ℕ → Json → Redis → Redis
written o m key ttl output r = if m.write_fails then r else encoded m key ttl (o.dumps output) r

unfoldable pub executed : Outside → Text → String → Dict Json → Fields → Outcome Json
unfolding dispatch_script dispatch_mcp dispatch_rest dispatch_builtin
executed o name tool_type endpoint inputs =
    if tool_type =s= "script"
    then dispatch_script o endpoint inputs
    else if tool_type =s= "mcp"
    then dispatch_mcp o endpoint inputs
    else if tool_type =s= "rest"
    then dispatch_rest o endpoint inputs
    else if tool_type =s= "builtin"
    then dispatch_builtin o name endpoint inputs
    else refused (
        codes "Unknown tool_type '"
        ++ (codes tool_type ++ (codes "' for tool '" ++ (name ++ codes "'"))))

abbrev pub Result : Type 0
Result = Outcome (Json × Option Text)

abbrev pub with_url : Option Text → Outcome Json → Result
with_url url (returned j) = returned (j, url)
with_url url (refused t) = refused t
with_url url raised = raised

abbrev stored : Outside → Meets → Text → ℕ → Redis → Outcome Json → Redis
stored o m key ttl r (returned j) = written o m key ttl j r
stored o m key ttl r _ = r

abbrev pub from_cache :
    Outside
    → Meets
    → Dispatcher
    → Text
    → Redis
    → Option Text
    → Outcome Json
    → Option Json
    → Dispatcher × Result
from_cache o m d key r url run (some j) = (d, returned (j, url))
from_cache o m d key r url run none =
    (record d { redis = some (stored o m key d.tool_cache_ttl r run) }, with_url url run)

-- `run` is what the executor gives, where it is asked.
abbrev pub through_redis :
    Outside
    → Meets
    → Dispatcher
    → Text
    → Fields
    → Bool
    → Option Text
    → Outcome Json
    → Dispatcher × Result
through_redis o m d name inputs cacheable url run = elim d.redis [
  | none ↦ (d, with_url url run)
  | some r ↦
      if cacheable
      then from_cache o m d (cache_key o name inputs) r url run
          (cached o m (cache_key o name inputs) r)
      else (d, with_url url run)
]

unfoldable pub with_contract :
    Outside → Meets → Dispatcher → Text → Fields → ToolContract → Dispatcher × Result
unfolding extract_api_url synthetic cached written executed
with_contract o m d name inputs c =
    let tool_type = type_of c in
    let url = extract_api_url o tool_type c.endpoint inputs in
    elim (synthetic o c.endpoint) [
      | some j ↦ (d, returned (j, url))
      | none ↦
          through_redis o m d name inputs (is_cacheable tool_type) url
            (executed o name tool_type c.endpoint inputs)
    ]

abbrev pub by_contract :
    Outside → Meets → Dispatcher → Text → Fields → Outcome ToolContract → Dispatcher × Result
by_contract o m d name inputs (returned c) = with_contract o m d name inputs c
by_contract o m d name inputs (refused t) = (d, refused t)
by_contract o m d name inputs raised = (d, raised)

-- The list of servers is fetched once the name has its parts.
unfoldable pub through_live :
    Outside → Meets → Dispatcher → Text → Fields → Option LiveClient → Dispatcher × Result
unfolding dispatch_mcp_live fetch_server_list name_parts
through_live o m d name inputs none = (
  d,
  refused (codes "Tool '" ++ (name ++ codes "' requires MCPLiveClient but none was configured")),
)
through_live o m d name inputs (some client) = elim (name_parts name) [
  | none ↦ (d, with_url none (dispatch_mcp_live o [] name inputs))
  | some parts ↦
      let (client', servers) = fetch_server_list m.get_servers m.fetched_at client in
      (record d { live = some client' }, with_url none (dispatch_mcp_live o servers name inputs))
]

unfoldable pub dispatch_with_url :
    Outside → Meets → Dispatcher → Text → Fields → Dispatcher × Result
unfolding resolve_contract with_contract through_live
dispatch_with_url o m d name inputs =
    if starts_with name (codes "mcp::")
    then through_live o m d name inputs d.live
    else by_contract o m d name inputs (resolve_contract name m.list_tools)

abbrev output_of : Result → Outcome Json
output_of (returned (j, url)) = returned j
output_of (refused t) = refused t
output_of raised = raised

unfoldable pub dispatch : Outside → Meets → Dispatcher → Text → Fields → Dispatcher × Outcome Json
unfolding dispatch_with_url
dispatch o m d name inputs =
    let (d', result) = dispatch_with_url o m d name inputs in (d', output_of result)
