-- ===== src/Service/Start/Opened/Tests.antt =====
-- A start that succeeds, and one that the database stops.
use chat_aiagent.Prelude.{
  ◌≡◌, refl, Bool, true, false, not, ◌&&◌, Option, some, none, [], Text, codes, text_eq, lower,
  if◌then◌else◌, is_empty,
}
use chat_aiagent.Runtime.{BaseAgent, stop_raised, raised, lifespan}
use chat_aiagent.Tools.Texts.{cut}
use chat_aiagent.Tools.Credentials.{Outside, no_answer, aws_raised}
use chat_aiagent.Service.Start.{Open, closed, Services, settings_of, on_start, on_stop}
use chat_aiagent.Service.Start.Opened.{started, makes_client, is_up, lifespan-on_start}

abbrev variable : Text → Option Text
variable name =
    if text_eq name (codes "CHECKPOINTER_URL")
    then some (codes "postgresql://db")
    else if text_eq name (codes "REGISTRY_SERVICE_URL")
    then some (codes "http://registry")
    else if text_eq name (codes "TOOL_AUTH_ENABLED")
    then some (codes "False")
    else none

abbrev env : Outside
env = record {
  environ = variable;
  service_account_token = none;
  vault_get = λ url token. no_answer;
  vault_post = λ url role token. no_answer;
  get_secret_value = λ name. aws_raised;
  show = λ j. [];
}

abbrev int : Text → Option Text
int t = if is_empty t then none else some t

abbrev table_fails : Services
table_fails = record {
  models = true;
  from_url = true;
  ping = true;
  table = false;
  enter = true;
  setup = true;
  aclose = true;
  leave = true;
}

-- Redis does not close.
abbrev aclose_fails : Services
aclose_fails = record table_fails { table = true; aclose = false }

abbrev agent : BaseAgent Open Bool
agent = record {
  name = "a";
  version = "1";
  turn = λ m t c o. (o, raised []);
  stream = λ m t c o. (o, record { events = []; error = none });
  on_start = λ o. (o, true);
  on_stop = λ o. (o, true);
}

settings_read :
    settings_of int env (codes "postgresql://db") (codes "http://registry")
    ≡ some (record {
      registry_url = codes "http://registry";
      cache_ttl_seconds = codes "60";
      auth_url = none;
      username = none;
      password = none;
      rag_cache_ttl = codes "86400";
      credential_resolver = none;
      tool_cache_ttl = codes "3600";
      agentcore_db_url = codes "postgresql+asyncpg://db";
    })
unfolding settings_of lower cut
settings_read = refl

left_open : (lifespan (started int env table_fails agent) (λ o. o) closed).0.redis ≡ true
unfolding lifespan on_start settings_of
left_open = refl

left_entered :
    lifespan (started int env aclose_fails agent) (λ o. o) closed
    ≡ (record { redis = true; checkpointer = true }, stop_raised)
unfolding lifespan on_start on_stop settings_of
left_entered = refl

lifespan-on_start_example :
    let l = lifespan (started int env aclose_fails agent) (λ o. o) closed in
    (l.0.redis ≡ (makes_client env aclose_fails && not (is_up l.1 && false)))
    × ((is_up l.1 && l.0.checkpointer) ≡ (is_up l.1 && not (false && true)))
lifespan-on_start_example = lifespan-on_start int env aclose_fails agent
