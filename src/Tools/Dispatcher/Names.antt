-- ===== src/Tools/Dispatcher/Names.antt =====
-- The names of the tools of the live client, from the client to the dispatcher and back.
use chat_aiagent.Prelude.{
  ◌≡◌, refl, false, none, some, [], ◌∷◌, ◌++◌, Text, codes, find, has_char, arith, Option-cases,
  inl, inr,
}
use chat_aiagent.Prelude.Json.{Fields}
use chat_aiagent.Registry.Base.{ToolContract}
use chat_aiagent.Registry.Live.{
  Server, Tool, LiveClient, live_name, types, to_contract, fetch_server_list,
}
use chat_aiagent.Tools.Texts.{cut-append}
use chat_aiagent.Tools.Base.{Outside}
use chat_aiagent.Tools.Mcp.{name_parts, is_named, call, dispatch_mcp_live}
use chat_aiagent.Tools.Dispatcher.{Dispatcher, Meets, with_url, through_live, dispatch_with_url}

name_parts-live_name :
    (server bare : Text)
    → has_char 58 server ≡ false
    → name_parts (live_name server bare) ≡ some (server, bare)
unfolding name_parts
name_parts-live_name server bare h = ground (
  arith,
  cut-append 58 (58 ∷ []) (codes "mcp") (server ++ (58 ∷ (58 ∷ bare))) refl,
  cut-append 58 (58 ∷ []) server bare h,
)

to_contract_name :
    (s : Server) (t : Tool) (c : ToolContract)
    → to_contract s t ≡ some c
    → c.name ≡ live_name s.name t.name
unfolding to_contract
to_contract_name s t c h = elim (Option-cases (types t.properties)) [
  | inl e ↦ ground (arith, e)
  | inr (schema, e) ↦ ground (arith, e)
]

-- A contract that the live client makes of a tool of a server leads the dispatcher back to it: the
-- dispatch of its name calls this tool, under its own name, at the URL of this server, where the
-- server's name has no ":" and the list of servers has this server first under its name.
pub dispatch-to_contract :
    (o : Outside) (m : Meets) (d : Dispatcher) (client : LiveClient) (s : Server) (t : Tool)
    (c : ToolContract) (inputs : Fields)
    → d.live ≡ some client
    → to_contract s t ≡ some c
    → has_char 58 s.name ≡ false
    → find (is_named s.name) (fetch_server_list m.get_servers m.fetched_at client).1 ≡ some s
    → (dispatch_with_url o m d c.name inputs).1 ≡ with_url none (call o s.name s.url t.name inputs)
unfolding dispatch_with_url through_live dispatch_mcp_live
dispatch-to_contract o m d client s t c inputs l k h f =
    rw (to_contract_name s t c k) (ground (arith, l, f, name_parts-live_name s.name t.name h))
