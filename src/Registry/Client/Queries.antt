-- ===== src/Registry/Client/Queries.antt =====
-- worker_agent/registry/scalable.py: the queries of the registry's client over its cache. What the
-- rows of a document are read as, record by record, is an argument (none where it raises).
use chat_aiagent.Prelude.{
  ℕ, String, Bool, true, false, Option, none, some, List, [], ◌∷◌, ◌++◌, Text, Dict, codes,
  is_empty_text, if◌then◌else◌, ◌=s=◌,
}
use chat_aiagent.Prelude.Json.{Json, null, bool, num, str, arr, obj, nil, end}
use chat_aiagent.Registry.Base.{EntityFieldMeta, ToolContract, Playbook, IntentSummary}
use chat_aiagent.Registry.Client.{
  Key, Value, absent, schema, tools, playbook, intents, Client, cached, set, World, Fetched,
  fetched, unavailable, raised, fetch, nonempty,
}

-- What a query gives: a value, KeyError, RegistryUnavailableError or another exception.
pub data Answer : Type 0 where
  answer : Value → Answer
  key_error : Answer
  registry_unavailable : Answer
  failed : Answer

-- The clock at the look into the cache and at the write to it, and the services in between.
pub record Meets : Type 0 where
  pub read_at : ℕ
  pub set_at : ℕ
  pub world : World

-- A value that is kept, or an exception.
abbrev kept : Meets → Key → Client → Option Value → Client × Answer
kept m k c none = (c, failed)
kept m k c (some v) = (set m.set_at k v c, answer v)

-- A query that looks into the cache and fetches a path otherwise; `none` stands for a 404.
abbrev on_fetched :
    Meets → Key → (Option Json → Client → Client × Answer) → Client → Fetched → Client × Answer
on_fetched m k read c unavailable = (c, registry_unavailable)
on_fetched m k read c raised = (c, failed)
on_fetched m k read c (fetched j) = read j c

abbrev pub through_cache :
    Meets → Key → Text → (Option Json → Client → Client × Answer) → Client → Client × Answer
through_cache m k path read c = elim (cached m.read_at k c) [
  | some v ↦ (c, answer v)
  | none ↦ let (c', requests, f) = fetch m.world path c in on_fetched m k read c' f
]

-- `not data` for a document
abbrev pub is_falsy : Json → Bool
is_falsy null = true
is_falsy (bool b) = elim b [ true ↦ false | false ↦ true ]
is_falsy (num n) = (n =s= "0")
is_falsy (str t) = is_empty_text t
is_falsy (arr nil) = true
is_falsy (obj end) = true
is_falsy _ = false

abbrev pub key_of : List Text → Key
key_of [] = []
key_of (t ∷ ts) = some t ∷ key_of ts

abbrev pub mapped : {A : Type 0} → (A → Value) → Option A → Option Value
mapped f none = none
mapped f (some a) = some (f a)

abbrev intents_path : Text → Text
intents_path domain = codes "/domains/" ++ (domain ++ codes "/intents")

abbrev read_schema :
    Meets
    → Key
    → String
    → (Json → Option (Dict (List EntityFieldMeta)))
    → Option Json
    → Client
    → Client × Answer
read_schema m k domain rows none c = (c, key_error)
read_schema m k domain rows (some j) c =
    kept m k c
      (mapped (λ is. schema (record { domain = domain; intents = is; owner = "" })) (rows j))

unfoldable pub get_schema :
    (Json → Option (Dict (List EntityFieldMeta))) → Meets → String → Client → Client × Answer
unfolding cached fetch set
get_schema rows m domain c =
    let k = key_of (codes "schema" ∷ codes domain ∷ []) in
    through_cache m k (intents_path (codes domain)) (read_schema m k domain rows) c

-- `data or []`
abbrev read_list :
    {A : Type 0}
    → Meets
    → Key
    → (List A → Value)
    → (Json → Option (List A))
    → Option Json
    → Client
    → Client × Answer
read_list m k f rows none c = kept m k c (some (f []))
read_list m k f rows (some j) c =
    if is_falsy j then kept m k c (some (f [])) else kept m k c (mapped f (rows j))

abbrev tools_path : Option Text → Text
tools_path none = codes "/tools"
tools_path (some d) = codes "/tools?domain=" ++ d

unfoldable pub list_tools :
    (Json → Option (List ToolContract)) → Meets → Option Text → Client → Client × Answer
unfolding cached fetch set
list_tools rows m domain c =
    let k = some (codes "tools") ∷ (domain ∷ []) in
    through_cache m k (tools_path (nonempty domain)) (read_list m k tools rows) c

abbrev read_playbook :
    Meets → Key → (Json → Option Playbook) → Option Json → Client → Client × Answer
read_playbook m k rows none c = (set m.set_at k absent c, answer absent)
read_playbook m k rows (some j) c = kept m k c (mapped playbook (rows j))

abbrev playbook_path : Text → Option Text → Text
playbook_path d none = codes "/playbooks/" ++ d
playbook_path d (some v) = codes "/playbooks/" ++ (d ++ (codes "/" ++ v))

unfoldable pub get_playbook :
    (Json → Option Playbook) → Meets → Text → Option Text → Client → Client × Answer
unfolding cached fetch set
get_playbook rows m domain version c =
    let k = some (codes "playbook") ∷ (some domain ∷ (version ∷ [])) in
    through_cache m k (playbook_path domain (nonempty version)) (read_playbook m k rows) c

unfoldable pub get_intents :
    (Json → Option (List IntentSummary)) → Meets → Text → Client → Client × Answer
unfolding cached fetch set
get_intents rows m domain c =
    let k = key_of (codes "intents" ∷ domain ∷ []) in
    through_cache m k (intents_path domain) (read_list m k intents rows) c
