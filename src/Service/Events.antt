-- ===== src/Service/Events.antt =====
-- worker_agent/main.py: the list of the events of a thread as it is read back, the last remediation,
-- the caller's headers, and the objects of LangGraph as documents.
pub mod Paging
mod Tests
use chat_aiagent.Prelude.{
  ℕ, suc, ◌+◌, String, Bool, true, false, ◌&&◌, Option, none, some, List, [], ◌∷◌, ◌++◌, Text, Dict,
  lookup, codes, starts_with, strip, drop, map, length, or_else, is_empty_text, if◌then◌else◌,
}
use chat_aiagent.Prelude.Json.{Json, bool, str, arr, obj, Items, nil, cons, Fields, end, field}

-- A payload that is no document is shown as it is.
abbrev pub payload : (Text → Option Json) → Text → Json
payload loads raw = elim (loads raw) [ none ↦ obj (field "raw" (str raw) end) | some j ↦ j ]

abbrev pub numbered : ℕ → List Json → List (ℕ × Json)
numbered i [] = []
numbered i (p ∷ ps) = (i, p) ∷ numbered (suc i) ps

pub record Page : Type 0 where
  pub events : List (ℕ × Json)
  pub total : ℕ

-- The events from an index that is not negative: the list as LRANGE reads it, and as LLEN counts it.
unfoldable pub get_events : (Text → Option Json) → ℕ → List Text → List Text → Page
get_events loads from_index ranged counted = record {
  events = numbered from_index (map (payload loads) (drop from_index ranged));
  total = length counted;
}

-- What /remediation-result answers; none where Redis or json.loads raises.
pub data Latest : Type 0 where
  no_data : Latest
  ok : Json → Latest

abbrev stored : (Text → Option Json) → Option Text → Option Latest
stored loads none = some no_data
stored loads (some []) = some no_data
stored loads (some (c ∷ t)) = elim (loads (c ∷ t)) [ none ↦ none | some j ↦ some (ok j) ]

-- `redis` is none where the agent has no client; in it, none where the read raises.
unfoldable pub remediation_result :
    (Text → Option Json) → Option (Option (Option Text)) → Option Latest
remediation_result loads none = some no_data
remediation_result loads (some none) = none
remediation_result loads (some (some raw)) = stored loads raw

pub record Auth : Type 0 where
  pub user_id : Text
  pub tenant_id : Text
  pub token : Text

-- `t.removeprefix(p)`
abbrev pub removeprefix : Text → Text → Text
removeprefix p t = if starts_with t p then drop (length p) t else t

abbrev pub bearer : Text → Text
bearer raw = strip (removeprefix (codes "bearer ") (removeprefix (codes "Bearer ") raw))

abbrev auth_of : Dict Text → Text → Text → Option Auth
auth_of headers user tenant =
    if is_empty_text user
    then none
    else if is_empty_text tenant
    then none
    else some (record {
      user_id = user;
      tenant_id = tenant;
      token = bearer (or_else (lookup "authorization" headers) []);
    })

-- The names of headers are in lower case.
unfoldable pub extract_auth_from_headers : Dict Text → Option Auth
extract_auth_from_headers headers =
    auth_of headers (or_else (lookup "x-user-id" headers) [])
      (or_else (lookup "x-tenant-id" headers) [])

mutual
  -- The objects that LangGraph yields: a message, a model of pydantic with its dump, an interrupt, a
  -- dictionary, a list or a tuple, or a value that is returned as it is.
  pub data Value : Type 0 where
    message : Text → Json → Value
    model : Json → Value
    interrupt : Value → Bool → Value
    dictionary : Entries → Value
    sequence : Values → Value
    plain : Json → Value

  pub data Values : Type 0 where
    no_values : Values
    value : Value → Values → Values

  pub data Entries : Type 0 where
    no_entries : Entries
    entry : String → Value → Entries → Entries

abbrev mutual
  pub serialise : Value → Json
  serialise (message type content) = obj (field "role" (str type) (field "content" content end))
  serialise (model dump) = dump
  serialise (interrupt v resumable) =
      obj (field "value" (serialise v) (field "resumable" (bool resumable) end))
  serialise (dictionary es) = obj (serialise_entries es)
  serialise (sequence vs) = arr (serialise_values vs)
  serialise (plain j) = j

  pub serialise_values : Values → Items
  serialise_values no_values = nil
  serialise_values (value v vs) = cons (serialise v) (serialise_values vs)

  pub serialise_entries : Entries → Fields
  serialise_entries no_entries = end
  serialise_entries (entry k v es) = field k (serialise v) (serialise_entries es)
