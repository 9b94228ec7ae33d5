-- ===== src/Tools/Executors.antt =====
-- worker_agent/tools/dispatcher.py: the executor of each type of tool. Those of
-- MCP are in Mcp.
use chat_aiagent.Prelude.{
  Option, none, some, List, [], ◌∷◌, ◌++◌, Text, Dict, codes, text_eq, or_else, if◌then◌else◌,
}
use chat_aiagent.Prelude.Json.{Json, obj, Fields}
use chat_aiagent.Tools.Texts.{rcut}
use chat_aiagent.Tools.Credentials
use chat_aiagent.Tools.Base.{
  Outside, Outcome, returned, refused, raised, then_on, ScriptRun, syntax_error, no_run, timed_out,
  ran, script_raised, Builtin, import_error, no_attribute, attribute_none, called, call_raised,
  text_at, filled, upper, nonempty_at, answered,
}
use chat_aiagent.Tools.Aws.{invoke_aws_sync}

abbrev script_outcome : Text → ScriptRun → Outcome Json
script_outcome timeout (syntax_error t) = refused (codes "Script syntax error: " ++ t)
script_outcome timeout no_run =
    refused (codes "Script must define 'async def run(inputs: dict) -> dict'")
script_outcome timeout timed_out =
    refused (codes "Script timed out after " ++ (timeout ++ codes "s"))
script_outcome timeout (ran j) = returned j
script_outcome timeout script_raised = raised

-- The variable TOOL_SCRIPT_TIMEOUT_S is the decimal of a number, where it is set.
unfoldable pub dispatch_script : Outside → Dict Json → Fields → Outcome Json
unfolding text_at
dispatch_script o endpoint inputs = elim (nonempty_at "script" endpoint) [
  | none ↦ refused (codes "Script endpoint missing 'script' field")
  | some script ↦
      let timeout = or_else (o.environ (codes "TOOL_SCRIPT_TIMEOUT_S")) (codes "60") in
      script_outcome timeout (o.run_script script inputs timeout)
]

abbrev secret_outcome : Credentials.Resolved → Outcome Text
secret_outcome (Credentials.resolved t) = returned t
secret_outcome (Credentials.refused t) = refused t
secret_outcome Credentials.raised = raised

unfoldable pub resolve_auth_secret : Outside → Option Text → Outcome Text
resolve_auth_secret o ref = elim (Credentials.given ref) [
  | none ↦ refused (codes "auth_secret_ref is required but not set in endpoint config")
  | some r ↦ secret_outcome (Credentials.aresolve o.secrets o.resolver r)
]

unfoldable pub auth_headers : Outside → Text → Option Text → Outcome (List (Text × Text))
unfolding resolve_auth_secret
auth_headers o auth_type ref =
    if text_eq auth_type (codes "bearer")
    then then_on (resolve_auth_secret o ref)
        (λ s. returned ((codes "Authorization", codes "Bearer " ++ s) ∷ []))
    else if text_eq auth_type (codes "api-key")
    then then_on (resolve_auth_secret o ref) (λ s. returned ((codes "X-API-Key", s) ∷ []))
    else returned []

-- _dispatch_rest; without a URL `endpoint["url"]` raises.
unfoldable pub dispatch_rest : Outside → Dict Json → Fields → Outcome Json
unfolding text_at filled upper auth_headers invoke_aws_sync
dispatch_rest o endpoint inputs = elim (text_at "url" endpoint) [
  | none ↦ raised
  | some url ↦
      let auth_type = or_else (text_at "auth_type" endpoint) (codes "none") in
      if text_eq auth_type (codes "aws_sigv4")
      then invoke_aws_sync o endpoint inputs
      else then_on (auth_headers o auth_type (text_at "auth_secret_ref" endpoint)) (λ headers.
        answered (
          o.request (upper (or_else (text_at "method" endpoint) (codes "POST")))
            (filled o inputs url) (obj inputs) headers))
]

abbrev builtin_outcome : Text → Text → Text → Builtin → Outcome Json
builtin_outcome tool module_path fn import_error = raised
builtin_outcome tool module_path fn no_attribute =
    refused
      (codes "No callable '" ++ (fn ++ (codes "' found in module '" ++ (module_path ++ codes "'"))))
builtin_outcome tool module_path fn attribute_none =
    refused (codes "No callable found for builtin tool '" ++ (tool ++ codes "'"))
builtin_outcome tool module_path fn (called j) = returned j
builtin_outcome tool module_path fn call_raised = raised

-- A path without a dot does not unpack.
unfoldable pub dispatch_builtin : Outside → Text → Dict Json → Fields → Outcome Json
unfolding text_at
dispatch_builtin o tool endpoint inputs = elim (nonempty_at "function" endpoint) [
  | none ↦ refused (codes "No function path configured for builtin tool '" ++ (tool ++ codes "'"))
  | some path ↦ elim (rcut 46 path) [
    | none ↦ raised
    | some (module_path, fn) ↦ builtin_outcome tool module_path fn (o.builtin module_path fn inputs)
  ]
]
