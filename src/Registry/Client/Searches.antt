-- ===== src/Registry/Client/Searches.antt =====
-- worker_agent/registry/scalable.py: the searches of the registry's client, over its cache and Redis.
-- The answers of the services are arguments, read as records already, and so is what json.loads and
-- json.dumps make of an entry of Redis.
use chat_aiagent.Prelude.{
  ℕ, ◌+◌, Bool, false, Option, none, some, List, [], ◌∷◌, ◌++◌, Text, codes, take, decimal,
  is_empty, or_else, if◌then◌else◌,
}
use chat_aiagent.Registry.Base.{DomainRecord, ToolRecord}
use chat_aiagent.Registry.Live.{at_url, set_url, good}
use chat_aiagent.Registry.Client.{
  Key, Value, chunks, domains, tool_records, Client, cached, set, nonempty,
}
use chat_aiagent.Registry.Client.Queries.{Meets, key_of, mapped}

-- Redis as one query meets it: its entries with the time at which they expire, whether the read and
-- the write work, and the clock at both.
pub record Redis : Type 0 where
  pub entries : List (Text × (ℕ × Text))
  pub reads : Bool
  pub writes : Bool
  pub read_at : ℕ
  pub written_at : ℕ

abbrev decoded : (Text → Option Value) → Option Text → Option Value
decoded loads none = none
decoded loads (some raw) = loads raw

abbrev in_redis : (Text → Option Value) → Text → Option Redis → Option Value
in_redis loads key none = none
in_redis loads key (some r) =
    if r.reads then decoded loads (nonempty (good r.read_at (at_url key r.entries))) else none

abbrev put : Text → ℕ → Option Text → Redis → Redis
put key ttl none r = r
put key ttl (some t) r = record r { entries = set_url key (r.written_at + ttl, t) r.entries }

abbrev to_redis : (Value → Option Text) → Text → ℕ → Value → Option Redis → Option Redis
to_redis dumps key ttl v none = none
to_redis dumps key ttl v (some r) = some (if r.writes then put key ttl (dumps v) r else r)

-- A list without an item.
abbrev is_blank : Value → Bool
is_blank (chunks ts) = is_empty ts
is_blank (domains ds) = is_empty ds
is_blank (tool_records ts) = is_empty ts
is_blank _ = false

abbrev found :
    Meets
    → Key
    → Text
    → (Value → Option Text)
    → ℕ
    → Value
    → Client
    → Option Redis
    → Option Value
    → Client × Option Redis × Value
found m k rkey dumps ttl empty c r none = (c, r, empty)
found m k rkey dumps ttl empty c r (some v) =
    (set m.set_at k v c, if is_blank v then r else to_redis dumps rkey ttl v r, v)

-- A search through the cache and Redis: `asked` is what the service answers, none where anything
-- fails, which gives `empty` and is kept nowhere.
unfoldable pub two_level :
    Meets
    → Key
    → Text
    → (Text → Option Value)
    → (Value → Option Text)
    → ℕ
    → Value
    → Option Value
    → Client
    → Option Redis
    → Client × Option Redis × Value
unfolding cached set
two_level m k rkey loads dumps ttl empty asked c r = elim (cached m.read_at k c) [
  | some v ↦ (c, r, v)
  | none ↦ elim (in_redis loads rkey r) [
    | some v ↦ (set m.set_at k v c, r, v)
    | none ↦ found m k rkey dumps ttl empty c r asked
  ]
]

-- `sha256` in hexadecimal is an argument.
abbrev hash_str : (Text → Text) → Text → Text
hash_str sha256_hex t = take 16 (sha256_hex t)

unfoldable pub retrieve_rag_context :
    (Text → Text)
    → (Text → Option Value)
    → (Value → Option Text)
    → ℕ
    → Meets
    → Text
    → Text
    → ℕ
    → Option (List Text)
    → Client
    → Option Redis
    → Client × Option Redis × Value
unfolding two_level
retrieve_rag_context sha256_hex loads dumps ttl m domain query top_k asked c r =
    two_level m (key_of (codes "rag_context" ∷ domain ∷ query ∷ decimal top_k ∷ []))
      (codes "rag:"
        ++ (domain ++ (codes ":" ++ (hash_str sha256_hex query ++ (codes ":" ++ decimal top_k)))))
      loads dumps ttl (chunks []) (mapped chunks asked) c r

unfoldable pub search_tools :
    (Text → Text)
    → (Text → Option Value)
    → (Value → Option Text)
    → ℕ
    → Meets
    → Text
    → Option Text
    → ℕ
    → Option (List ToolRecord)
    → Client
    → Option Redis
    → Client × Option Redis × Value
unfolding two_level
search_tools sha256_hex loads dumps ttl m query domain k asked c r =
    two_level m (some (codes "search_tools") ∷ (some query ∷ (domain ∷ (some (decimal k) ∷ []))))
      (codes "tool_search:"
        ++ (or_else domain []
            ++ (codes ":" ++ (hash_str sha256_hex query ++ (codes ":" ++ decimal k)))))
      loads dumps ttl (tool_records []) (mapped tool_records asked) c r

abbrev kept_domains : Meets → Key → Option (List DomainRecord) → Client → Client × Value
kept_domains m k none c = (c, domains [])
kept_domains m k (some ds) c = (set m.set_at k (domains ds) c, domains ds)

unfoldable pub search_domains :
    Meets → Text → ℕ → Option (List DomainRecord) → Client → Client × Value
unfolding cached set
search_domains m query n asked c =
    let k = key_of (codes "search_domains" ∷ query ∷ decimal n ∷ []) in
    elim (cached m.read_at k c) [ some v ↦ (c, v) | none ↦ kept_domains m k asked c ]
