-- ===== src/Service/Start.antt =====
-- worker_agent/main.py, on_start and on_stop: what the agent reads of the environment, and what it has
-- open behind each way to start. The services are outside; `int` is Python's, none where it raises.
-- The imports and the safety filter are left out; building the graph at the end counts to the set-up of
-- the checkpointer.
pub mod Opened
use chat_aiagent.Prelude.{
  String, Bool, true, false, Option, none, some, List, [], ◌∷◌, ◌++◌, Text, codes, lower, text_eq,
  or_else, text_or, if◌then◌else◌,
}
use chat_aiagent.Tools.Texts.{cut}
use chat_aiagent.Tools.Credentials.{Outside, CredentialResolver, from_env, given}

-- What is open: the client of Redis and the context of the checkpointer.
pub record Open : Type 0 where
  pub redis : Bool
  pub checkpointer : Bool

abbrev pub closed : Open
closed = record { redis = false; checkpointer = false }

-- The arguments of the registry's client and of the dispatcher of tools, and the database.
pub record Settings (N : Type 0) : Type 0 where
  pub registry_url : Text
  pub cache_ttl_seconds : N
  pub auth_url : Option Text
  pub username : Option Text
  pub password : Option Text
  pub rag_cache_ttl : N
  pub credential_resolver : Option CredentialResolver
  pub tool_cache_ttl : N
  pub agentcore_db_url : Text

pub data Failure : Type 0 where
  -- os.environ[key]
  key_error : Text → Failure
  registry_required : Failure
  -- ChatAnthropic raises
  models_raised : Failure
  -- aioredis.from_url raises
  client_raised : Failure
  -- a number of the environment that is none
  value_error : Failure
  redis_down : Failure
  database_down : Failure
  checkpointer_down : Failure

pub data Outcome (N : Type 0) : Type 0 where
  ready : Settings N → Outcome N
  failed : Failure → Outcome N

-- The services and their libraries, by whether each call goes through: the models and the client of Redis
-- are made, Redis answers the ping, the table is created (with the engines for it), the checkpointer is
-- entered and set up, and at the stop the client is closed and the checkpointer left.
pub record Services : Type 0 where
  pub models : Bool
  pub from_url : Bool
  pub ping : Bool
  pub table : Bool
  pub enter : Bool
  pub setup : Bool
  pub aclose : Bool
  pub leave : Bool

-- `url.replace("postgresql://", "postgresql+asyncpg://", 1)`
abbrev asyncpg : Text → Text
asyncpg url = elim (cut (codes "postgresql://") url) [
  | none ↦ url
  | some (before, behind) ↦ before ++ (codes "postgresql+asyncpg://" ++ behind)
]

module _ {N : Type 0} (int : Text → Option N) (env : Outside) where
  abbrev number : String → String → Option N
  number key default = int (or_else (env.environ (codes key)) (codes default))

  abbrev tool_auth_enabled : Bool
  tool_auth_enabled =
      text_eq (lower (or_else (env.environ (codes "TOOL_AUTH_ENABLED")) (codes "false")))
        (codes "true")

  abbrev with_numbers : Text → Text → Option N → Option N → Option N → Option (Settings N)
  with_numbers checkpointer_url registry_url (some cache) (some rag) (some tool) = some (record {
    registry_url = registry_url;
    cache_ttl_seconds = cache;
    auth_url = given (env.environ (codes "REGISTRY_AUTH_URL"));
    username = given (env.environ (codes "REGISTRY_USERNAME"));
    password = given (env.environ (codes "REGISTRY_PASSWORD"));
    rag_cache_ttl = rag;
    credential_resolver = if tool_auth_enabled then some (from_env env) else none;
    tool_cache_ttl = tool;
    agentcore_db_url = or_else (env.environ (codes "AGENTCORE_DB_URL")) (asyncpg checkpointer_url);
  })
  with_numbers checkpointer_url registry_url _ _ _ = none

  unfoldable pub settings_of : Text → Text → Option (Settings N)
  unfolding from_env lower cut
  settings_of checkpointer_url registry_url =
      with_numbers checkpointer_url registry_url (number "REGISTRY_CACHE_TTL_SECONDS" "60")
        (number "RAG_CACHE_TTL_SECONDS" "86400") (number "TOOL_CACHE_TTL_SECONDS" "3600")

  abbrev pub entered : Services → Settings N → Open → Open × Outcome N
  entered s settings o = (
    record o { checkpointer = true },
    if s.setup then ready settings else failed checkpointer_down,
  )

  -- From the database on.
  abbrev pub connected : Services → Settings N → Open → Open × Outcome N
  connected s settings o =
      if s.table
      then if s.enter then entered s settings o else (o, failed checkpointer_down)
      else (o, failed database_down)

  -- From the client of Redis on.
  abbrev pub configured : Services → Option (Settings N) → Open → Open × Outcome N
  configured s settings o =
      if s.ping
      then elim settings [ none ↦ (o, failed value_error) | some st ↦ connected s st o ]
      else (o, failed redis_down)

  -- From the models on.
  abbrev pub with_urls : Services → Text → Text → Open → Open × Outcome N
  with_urls s checkpointer_url [] o = (o, failed registry_required)
  with_urls s checkpointer_url (c ∷ t) o =
      if s.models
      then if s.from_url
        then configured s (settings_of checkpointer_url (c ∷ t)) (record o { redis = true })
        else (o, failed client_raised)
      else (o, failed models_raised)

  abbrev pub registry_url_of : Text
  registry_url_of = or_else (env.environ (codes "REGISTRY_SERVICE_URL")) []

  unfoldable pub on_start : Services → Open → Open × Outcome N
  unfolding settings_of
  on_start s o = elim (env.environ (codes "CHECKPOINTER_URL")) [
    | none ↦ (o, failed (key_error (codes "CHECKPOINTER_URL")))
    | some url ↦ with_urls s url registry_url_of o
  ]

-- The checkpointer is left behind the client of Redis; false where one of the two raises.
abbrev pub exit : Services → Open → Open × Bool
exit s o =
    if o.checkpointer
    then if s.leave then (record o { checkpointer = false }, true) else (o, false)
    else (o, true)

unfoldable pub on_stop : Services → Open → Open × Bool
on_stop s o =
    if o.redis
    then if s.aclose then exit s (record o { redis = false }) else (o, false)
    else exit s o
