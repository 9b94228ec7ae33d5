-- ===== src/Registry/Client.antt =====
-- worker_agent/registry/scalable.py, ScalableRegistryClient: the cache, the token and the request. A
-- key of the cache is a tuple of texts, where a number stands as its decimal and None as none. The
-- answers of the services are arguments; times are in seconds.
pub mod Refines
pub mod Retries
pub mod Queries
pub mod Searches
mod Tests
use chat_aiagent.Prelude.{
  ℕ, ◌+◌, String, Bool, true, false, ◌&&◌, not, Option, none, some, List, [], ◌∷◌, ◌++◌, Text,
  codes, text_eq, ltb, leb, ◌==◌, or_else, is_some, if◌then◌else◌,
}
use chat_aiagent.Prelude.Json.{Json}
use chat_aiagent.Registry.Base.{
  SchemaMetadata, ToolContract, Playbook, IntentSummary, DomainRecord, ToolRecord,
}

abbrev pub Key : Type 0
Key = List (Option Text)

abbrev pub part_eq : Option Text → Option Text → Bool
part_eq none none = true
part_eq (some s) (some t) = text_eq s t
part_eq _ _ = false

abbrev pub key_eq : Key → Key → Bool
key_eq [] [] = true
key_eq (a ∷ k) (b ∷ l) = part_eq a b && key_eq k l
key_eq _ _ = false

-- A value of the cache; `absent` is None.
pub data Value : Type 0 where
  absent : Value
  schema : SchemaMetadata → Value
  tools : List ToolContract → Value
  playbook : Playbook → Value
  intents : List IntentSummary → Value
  chunks : List Text → Value
  domains : List DomainRecord → Value
  tool_records : List ToolRecord → Value

abbrev pub Cache : Type 0
Cache = List (Key × (ℕ × Value))

pub record Credentials : Type 0 where
  pub auth_url : Text
  pub username : Text
  pub password : Text

-- `credentials` where all three are there and not empty
pub record Client : Type 0 where
  pub base_url : Text
  pub ttl : ℕ
  pub cache : Cache
  pub credentials : Option Credentials
  pub token : Option Text
  pub token_expires_at : ℕ

abbrev pub entry : Key → Cache → Option (ℕ × Value)
entry k [] = none
entry k ((j, e) ∷ rest) = let later = entry k rest in if key_eq j k then some e else later

abbrev pub with_entry : Key → ℕ × Value → Cache → Cache
with_entry k e [] = (k, e) ∷ []
with_entry k e ((j, f) ∷ rest) =
    let later = with_entry k e rest in if key_eq j k then (k, e) ∷ rest else (j, f) ∷ later

-- A value that is not None.
abbrev pub shown : Value → Option Value
shown absent = none
shown v = some v

abbrev pub unexpired : ℕ → Option (ℕ × Value) → Option Value
unexpired now none = none
unexpired now (some (expires_at, v)) = if ltb now expires_at then shown v else none

-- `_get`
unfoldable pub cached : ℕ → Key → Client → Option Value
cached now k c = unexpired now (entry k c.cache)

-- `_set`
unfoldable pub set : ℕ → Key → Value → Client → Client
set now k v c = record c { cache = with_entry k (now + c.ttl, v) c.cache }

unfoldable pub flush_cache : Client → Client
flush_cache c = record c { cache = [] }

-- The answer of the auth service: an exception of the request, a body without "access_token", or the
-- token with "expires_in".
pub data AuthAnswer : Type 0 where
  auth_failed : AuthAnswer
  no_access_token : AuthAnswer
  granted : Text → Option ℕ → AuthAnswer

-- The answer of the registry: an exception of the request, or the status with the document.
pub data Response : Type 0 where
  request_failed : Response
  response : ℕ → Option Json → Response

-- What one fetch meets: the auth service and the registry at its first and at its second asking,
-- with the clock at each step. A token that is empty counts as none.
pub record World : Type 0 where
  pub checked_at : ℕ
  pub granted_at : ℕ
  pub first_auth : AuthAnswer
  pub regranted_at : ℕ
  pub second_auth : AuthAnswer
  pub first_response : Text → Option Text → Response
  pub second_response : Text → Option Text → Response

abbrev pub nonempty : Option Text → Option Text
nonempty (some (c ∷ t)) = some (c ∷ t)
nonempty _ = none

-- A token, RegistryUnavailableError, or another exception.
pub data TokenResult : Type 0 where
  token_is : Option Text → TokenResult
  auth_unavailable : TokenResult
  auth_raised : TokenResult

abbrev pub ask : AuthAnswer → ℕ → Client → Client × TokenResult
ask auth_failed now c = (c, auth_unavailable)
ask no_access_token now c = (c, auth_raised)
ask (granted t expires_in) now c = (
  record c { token = some t; token_expires_at = now + or_else expires_in 3600 },
  token_is (some t),
)

unfoldable pub get_token : ℕ → ℕ → AuthAnswer → Client → Client × TokenResult
get_token checked_at granted_at answer c = elim c.credentials [
  | none ↦ (c, token_is none)
  | some k ↦
      if is_some (nonempty c.token) && ltb (checked_at + 30) c.token_expires_at
      then (c, token_is c.token)
      else ask answer granted_at c
]

pub data Fetched : Type 0 where
  fetched : Option Json → Fetched
  unavailable : Fetched
  raised : Fetched

-- A request that is made: its path and the token that it carries.
abbrev pub Request : Type 0
Request = Text × Option Text

-- A fetch: the client, the requests that were made, and the result.
abbrev pub Fetch : Type 0
Fetch = Client × List Request × Fetched

abbrev pub read_response : Response → Fetched
read_response request_failed = unavailable
read_response (response status body) =
    if status == 404
    then fetched none
    else if leb 200 status && ltb status 300
    then elim body [ none ↦ raised | some j ↦ fetched (some j) ]
    else unavailable

abbrev pub again : World → Text → Request → Client × TokenResult → Fetch
again w path asked (c, token_is t) =
    (c, asked ∷ (path, nonempty t) ∷ [], read_response (w.second_response path (nonempty t)))
again w path asked (c, auth_unavailable) = (c, asked ∷ [], unavailable)
again w path asked (c, auth_raised) = (c, asked ∷ [], unavailable)

abbrev pub is_unauthorised : Response → Bool
is_unauthorised request_failed = false
is_unauthorised (response status body) = status == 401

-- The first answer; a 401 to a token drops it and asks for another one, once.
abbrev pub after_first : World → Text → Option Text → Response → Client → Fetch
after_first w path t r c =
    if is_unauthorised r && is_some t
    then again w path (path, t)
        (get_token w.granted_at w.regranted_at w.second_auth (record c { token = none }))
    else (c, (path, t) ∷ [], read_response r)

abbrev pub with_first : World → Text → Client × TokenResult → Fetch
with_first w path (c, token_is t) =
    after_first w path (nonempty t) (w.first_response path (nonempty t)) c
with_first w path (c, auth_unavailable) = (c, [], unavailable)
with_first w path (c, auth_raised) = (c, [], raised)

unfoldable pub fetch : World → Text → Client → Fetch
unfolding get_token
fetch w path c = with_first w path (get_token w.checked_at w.granted_at w.first_auth c)
