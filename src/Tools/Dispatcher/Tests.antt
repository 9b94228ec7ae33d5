-- ===== src/Tools/Dispatcher/Tests.antt =====
-- Dispatches of a script, and of a tool of an MCP server.
use chat_aiagent.Prelude.{
  ℕ, ◌≡◌, refl, true, false, none, some, [], ◌∷◌, insert, lookup, codes, arith, lower, lower_char,
}
use chat_aiagent.Prelude.Json.{Json, str, obj, end, field}
use chat_aiagent.Registry.Base.{ToolContract}
use chat_aiagent.Registry.Live.{Server, Tool, LiveClient, types, to_contract, fetch_server_list}
use chat_aiagent.Tools.Texts.{replace}
use chat_aiagent.Tools.Credentials
use chat_aiagent.Tools.Base.{
  Outside, returned, ScriptRun, ran, script_raised, no_attribute, Answer, http_error, text_at,
  filled,
}
use chat_aiagent.Tools.Aws.{input_params, params, sorted, body_of}
use chat_aiagent.Tools.Executors.{dispatch_script}
use chat_aiagent.Tools.Mcp.{call}
use chat_aiagent.Tools.Dispatcher.{
  Dispatcher, Meets, resolve_contract, extract_api_url, synthetic, hash_inputs, cache_key, cached,
  executed, with_url, with_contract, dispatch_with_url,
}
use chat_aiagent.Tools.Dispatcher.Cached.{dispatch_again, dispatch_failed}
use chat_aiagent.Tools.Dispatcher.Names.{dispatch-to_contract}

-- One document, which is dumped as "ok".
abbrev output : Json
output = obj (field "state" (str (codes "up")) end)

abbrev outside : ScriptRun → Answer → Outside
outside script answer = record {
  environ = λ name. none;
  resolver = record { vault_addr = none; vault_token = none; vault_k8s_role = none };
  secrets = record {
    environ = λ name. none;
    service_account_token = none;
    vault_get = λ url token. Credentials.no_answer;
    vault_post = λ url role jwt. Credentials.no_answer;
    get_secret_value = λ id. Credentials.no_boto3;
    show = λ j. [];
  };
  run_script = λ s inputs timeout. script;
  request = λ method url body headers. answer;
  builtin = λ module_path fn inputs. no_attribute;
  aws_credentials = true;
  aws_request = λ service region method url body. body;
  parse_xml = none;
  show = λ j. codes "shown";
  dumps = λ j. some (codes "ok");
  loads = λ t. some output;
  dumps_sorted = λ inputs. codes "{}";
  sha256_hex = λ t. codes "44136fa355b3678a1146ad16f7e8649e";
}

abbrev contract : ToolContract
contract = record {
  name = codes "tunnels";
  domain = none;
  description = [];
  input_schema = [];
  output_description = [];
  version = "1";
  owner = [];
  tool_type = "script";
  endpoint = ("script", str (codes "async def run(inputs): ...")) ∷ [];
}

abbrev meets : ℕ → Meets
meets now = record {
  list_tools = some (contract ∷ []);
  get_servers = λ url. some (record { name = codes "net"; url = codes "http://net" } ∷ []);
  fetched_at = now;
  read_at = now;
  read_fails = false;
  written_at = now;
  write_fails = false;
}

abbrev client : LiveClient
client = record {
  registry_url = codes "http://reg";
  ttl = 60;
  server_cache = none;
  tool_cache = [];
}

abbrev empty : Dispatcher
empty = record { redis = some []; live = some client; tool_cache_ttl = 30 }

abbrev first : Outside
first = outside (ran output) http_error

abbrev broken : Outside
broken = outside script_raised http_error

dispatch_again_example :
    dispatch_with_url broken
      (meets 20)
      (dispatch_with_url first (meets 10) empty (codes "tunnels") end).0
      (codes "tunnels")
      end
    ≡ (
      (dispatch_with_url first (meets 10) empty (codes "tunnels") end).0,
      returned (output, extract_api_url broken "script" contract.endpoint end),
    )
unfolding resolve_contract synthetic lower lower_char cached executed dispatch_script text_at lookup
    cache_key hash_inputs
dispatch_again_example =
    dispatch_again first broken (meets 10) (meets 20) empty (codes "tunnels") (codes "ok") end
      contract [] output refl (refl, refl) refl (refl, refl) refl refl refl refl (refl, refl)
      (omega arith) (refl, refl, refl)

dispatch_failed_example :
    (dispatch_with_url broken (meets 10) empty (codes "tunnels") end).0.redis ≡ some []
unfolding dispatch_with_url resolve_contract with_contract synthetic lower lower_char cached
    executed dispatch_script text_at lookup cache_key hash_inputs
dispatch_failed_example = dispatch_failed broken (meets 10) empty (codes "tunnels") end refl

abbrev net : Server
net = record { name = codes "net"; url = codes "http://net" }

abbrev routes : Tool
routes = record { name = codes "list::routes"; description = none; properties = [] }

abbrev live_contract : ToolContract
live_contract = record {
  name = codes "mcp::net::list::routes";
  domain = none;
  description = [];
  input_schema = [];
  output_description = [];
  version = "live";
  owner = codes "net";
  tool_type = "mcp_live";
  endpoint =
      ("server_url", str (codes "http://net")) ∷ ("mcp_tool_name", str (codes "list::routes")) ∷ [];
}

dispatch-to_contract_example :
    (dispatch_with_url first (meets 10) empty (codes "mcp::net::list::routes") end).1
    ≡ with_url none (call first (codes "net") (codes "http://net") (codes "list::routes") end)
unfolding to_contract types fetch_server_list
dispatch-to_contract_example =
    dispatch-to_contract first (meets 10) empty client net routes live_contract end refl refl refl
      refl

-- The parameters of a signed request come in the order of their names.
aws_body :
    body_of (
      params first
        (codes "region")
        (codes "DescribeVpcs")
        (field "VpcId" (str []) (field "region" (str []) end)))
    ≡ codes "Action=DescribeVpcs&Version=2016-11-15&VpcId=shown"
unfolding body_of sorted params input_params lookup insert
aws_body = refl

aws_url :
    filled first (field "id" (str []) end) (codes "http://a/{id}/{x}") ≡ codes "http://a/shown/{x}"
unfolding filled replace
aws_url = refl
