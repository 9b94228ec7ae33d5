-- ===== src/Tools/Mcp.antt =====
-- The executors of MCP in worker_agent/tools/dispatcher.py, and `call` of
-- worker_agent/registry/mcp_live_client.py.
use chat_aiagent.Prelude.{
  Bool, Option, none, some, List, [], ◌∷◌, ◌++◌, Text, Dict, codes, text_eq, join, newline, find,
  or_else, if◌then◌else◌,
}
use chat_aiagent.Prelude.Json.{Json, num, str, arr, obj, Fields, end, field, get, items}
use chat_aiagent.Registry.Live.{Server}
use chat_aiagent.Tools.Texts.{cut}
use chat_aiagent.Tools.Base.{
  Outside, Outcome, returned, refused, raised, then_on, Answer, http_error, other_error, document,
  text_at, nonempty_at, answered,
}

-- The message of JSON-RPC; a number is kept as its literal.
unfoldable pub tools_call : Text → Fields → Json
tools_call name inputs = obj (
    field "jsonrpc" (str (codes "2.0")) (
      field "id" (num "1") (
        field "method" (str (codes "tools/call")) (
          field "params" (obj (field "name" (str name) (field "arguments" (obj inputs) end)))
            end))))

-- `c.get("text", str(c)) if isinstance(c, dict) else str(c)`, where that is text
abbrev content_text : Outside → Json → Option Text
content_text o (obj fs) = elim (get "text" fs) [
  | none ↦ some (o.show (obj fs))
  | some (str t) ↦ some t
  | some _ ↦ none
]
content_text o (str t) = some t
content_text o j = some (o.show j)

abbrev also : Option Text → Option (List Text) → Option (List Text)
also (some t) (some ts) = some (t ∷ ts)
also _ _ = none

unfoldable pub content_texts : Outside → List Json → Option (List Text)
unfolding get
content_texts o [] = some []
content_texts o (c ∷ cs) = also (content_text o c) (content_texts o cs)

abbrev joined : Option (List Text) → Outcome Json
joined none = raised
joined (some ts) = returned (obj (field "content" (str (join newline ts)) end))

abbrev content_outcome : Outside → Json → Outcome Json
content_outcome o (arr cs) = joined (content_texts o (items cs))
content_outcome o j = returned j

-- `result.get("content", result)`, which only a dict has
abbrev result_outcome : Outside → Json → Outcome Json
result_outcome o (obj fs) = content_outcome o (or_else (get "content" fs) (obj fs))
result_outcome o _ = raised

-- The answer of an MCP server; `in` and `get` on a document that is no object raise.
unfoldable pub mcp_outcome : Outside → Json → Outcome Json
unfolding get content_texts
mcp_outcome o (obj fs) = elim (get "error" fs) [
  | some e ↦ refused (codes "MCP error: " ++ o.show e)
  | none ↦ result_outcome o (or_else (get "result" fs) (obj fs))
]
mcp_outcome o _ = raised

unfoldable pub dispatch_mcp : Outside → Dict Json → Fields → Outcome Json
unfolding text_at tools_call mcp_outcome
dispatch_mcp o endpoint inputs = elim (nonempty_at "server_url" endpoint) [
  | none ↦ refused (codes "MCP endpoint requires 'server_url' and 'mcp_tool_name'")
  | some url ↦ elim (nonempty_at "mcp_tool_name" endpoint) [
    | none ↦ refused (codes "MCP endpoint requires 'server_url' and 'mcp_tool_name'")
    | some tool ↦
        then_on (answered (o.request (codes "POST") url (tools_call tool inputs) []))
          (mcp_outcome o)
  ]
]

-- MCPLiveClient.call as the dispatcher maps its exceptions. An error that is no object has no `get`.
abbrev live_error : Outside → Text → Text → Json → Outcome Json
live_error o server tool (obj e) = refused (
    codes "MCP error from '"
    ++ (server
        ++ (codes "/"
            ++ (tool
                ++ (codes "': " ++ elim (get "message" e) [
                  | some (str m) ↦ m
                  | some j ↦ o.show j
                  | none ↦ o.show (obj e)
                ])))))
live_error o server tool _ = raised

abbrev live_document : Outside → Text → Text → Json → Outcome Json
live_document o server tool (obj fs) = elim (get "error" fs) [
  | some e ↦ live_error o server tool e
  | none ↦ returned (or_else (get "result" fs) (obj end))
]
live_document o server tool _ = raised

unfoldable pub live_answer : Outside → Text → Text → Answer → Outcome Json
unfolding get
live_answer o server tool http_error = refused (codes "MCP_SERVER_UNREACHABLE: " ++ server)
live_answer o server tool other_error = raised
live_answer o server tool (document j) = live_document o server tool j

unfoldable pub call : Outside → Text → Text → Text → Fields → Outcome Json
unfolding live_answer tools_call
call o server url tool inputs =
    live_answer o server tool (o.request (codes "POST") url (tools_call tool inputs) [])

-- The parts of "mcp::server::tool" behind "mcp".
abbrev tail_parts : Option (Text × Text) → Option (Text × Text)
tail_parts none = none
tail_parts (some (mcp, rest)) = if text_eq mcp (codes "mcp") then cut (codes "::") rest else none

-- `namespaced_name.split("::", 2)`, where it has three parts of which the first is "mcp"
unfoldable pub name_parts : Text → Option (Text × Text)
name_parts name = tail_parts (cut (codes "::") name)

abbrev pub is_named : Text → Server → Bool
is_named name s = text_eq s.name name

abbrev at_server : Outside → Text → Text → Fields → Option Server → Outcome Json
at_server o server tool inputs none =
    refused (codes "MCP server '" ++ (server ++ codes "' not found in registered server list"))
at_server o server tool inputs (some s) = call o server s.url tool inputs

-- _dispatch_mcp_live with the servers that the client lists.
unfoldable pub dispatch_mcp_live : Outside → List Server → Text → Fields → Outcome Json
unfolding name_parts call
dispatch_mcp_live o servers name inputs = elim (name_parts name) [
  | none ↦ refused (codes "Invalid mcp_live tool name format: '" ++ (name ++ codes "'"))
  | some (server, tool) ↦ at_server o server tool inputs (find (is_named server) servers)
]
