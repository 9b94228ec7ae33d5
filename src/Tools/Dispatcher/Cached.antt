-- ===== src/Tools/Dispatcher/Cached.antt =====
-- What the cache of the dispatcher gives back, and what is never put into it.
use chat_aiagent.Prelude.{
  ℕ, ◌+◌, ◌<◌, ◌≡◌, refl, sym, inl, inr, Bool, true, false, Option, none, some, [], ◌∷◌, Text,
  codes, starts_with, is_empty_text, arith, Option-cases,
}
use chat_aiagent.Prelude.Json.{Json, Fields}
use chat_aiagent.Registry.Base.{ToolContract}
use chat_aiagent.Registry.Live.{LiveClient}
use chat_aiagent.Registry.Live.Fresh.{at_url_same}
use chat_aiagent.Tools.Base.{Outside, Outcome, returned, refused, raised}
use chat_aiagent.Tools.Dispatcher.{
  Redis, Dispatcher, Meets, Result, resolve_contract, type_of, is_cacheable, extract_api_url,
  synthetic, cache_key, cached, written, executed, from_cache, through_redis, with_contract,
  by_contract, through_live, dispatch_with_url,
}

-- What is written under a key is read under it, until it expires.
cached-written :
    (o later : Outside) (m n : Meets) (key t : Text) (ttl : ℕ) (j : Json) (r : Redis)
    → m.write_fails ≡ false
    → n.read_fails ≡ false
    → n.read_at < m.written_at + ttl
    → o.dumps j ≡ some t
    → is_empty_text t ≡ false
    → later.loads t ≡ some j
    → cached later n key (written o m key ttl j r) ≡ some j
unfolding cached written
cached-written o later m n key [] ttl j r w f h e ne l = absurd (ground arith)
cached-written o later m n key (c ∷ t) ttl j r w f h e ne l =
    ground (arith, at_url_same key (m.written_at + ttl, c ∷ t) r)

module _ (o : Outside) (m : Meets) (d : Dispatcher) (name : Text) (inputs : Fields)
    (c : ToolContract) where
  contract_miss :
      (r : Redis) (j : Json)
      → is_cacheable (type_of c) ≡ true
      → synthetic o c.endpoint ≡ none
      → d.redis ≡ some r
      → cached o m (cache_key o name inputs) r ≡ none
      → executed o name (type_of c) c.endpoint inputs ≡ returned j
      → with_contract o m d name inputs c ≡ (
        record d { redis = some (written o m (cache_key o name inputs) d.tool_cache_ttl j r) },
        returned (j, extract_api_url o (type_of c) c.endpoint inputs),
      )
  unfolding with_contract
  contract_miss r j y s e miss x = ground (arith, s, e, miss, x)

  contract_hit :
      (r : Redis) (j : Json)
      → is_cacheable (type_of c) ≡ true
      → synthetic o c.endpoint ≡ none
      → d.redis ≡ some r
      → cached o m (cache_key o name inputs) r ≡ some j
      → with_contract o m d name inputs c
        ≡ (d, returned (j, extract_api_url o (type_of c) c.endpoint inputs))
  unfolding with_contract
  contract_hit r j y s e hit = ground (arith, s, e, hit)

  dispatch_resolved :
      starts_with name (codes "mcp::") ≡ false
      → resolve_contract name m.list_tools ≡ returned c
      → dispatch_with_url o m d name inputs ≡ with_contract o m d name inputs c
  unfolding dispatch_with_url
  dispatch_resolved p x = ground (arith, x)

-- The output of a cacheable tool that an executor gave is what the next dispatch of the tool with
-- these inputs gives, and Redis stays as it is, until the entry expires, whatever the executors would
-- do by then: where Redis takes the write and answers the read, the first dispatch found nothing in
-- it, neither run uses synthetic data, the registry lists the tool both times, both runs give the
-- inputs the same key, and json.loads gives the output back from the text of json.dumps, which is not
-- empty.
pub dispatch_again :
    (o later : Outside) (m n : Meets) (d : Dispatcher) (name t : Text) (inputs : Fields)
    (c : ToolContract) (r : Redis) (j : Json)
    → starts_with name (codes "mcp::") ≡ false
    → (resolve_contract name m.list_tools ≡ returned c)
      × (resolve_contract name n.list_tools ≡ returned c)
    → is_cacheable (type_of c) ≡ true
    → (synthetic o c.endpoint ≡ none) × (synthetic later c.endpoint ≡ none)
    → d.redis ≡ some r
    → cached o m (cache_key o name inputs) r ≡ none
    → executed o name (type_of c) c.endpoint inputs ≡ returned j
    → cache_key later name inputs ≡ cache_key o name inputs
    → (m.write_fails ≡ false) × (n.read_fails ≡ false)
    → n.read_at < m.written_at + d.tool_cache_ttl
    → (o.dumps j ≡ some t) × (is_empty_text t ≡ false) × (later.loads t ≡ some j)
    → dispatch_with_url later n (dispatch_with_url o m d name inputs).0 name inputs ≡ (
      (dispatch_with_url o m d name inputs).0,
      returned (j, extract_api_url later (type_of c) c.endpoint inputs),
    )
dispatch_again o later m n d name t inputs c r j p x y s e miss run k ok h json =
    let key = cache_key o name inputs in
    let kept = written o m key d.tool_cache_ttl j r in
    let first = dispatch_resolved o m d name inputs c p x.0 in
    let after = record d { redis = some kept } in
    rw first (
      rw (contract_miss o m d name inputs c r j y s.0 e miss run) (
        rw (dispatch_resolved later n after name inputs c p x.1) (
          contract_hit later n after name inputs c kept j y s.1 refl (
            rw k (
              cached-written o later m n key t d.tool_cache_ttl j r ok.0 ok.1 h json.0 json.1
                json.2)))))

-- The result of a dispatch that gives an output.
abbrev pub is_returned : Result → Bool
is_returned (returned x) = true
is_returned _ = false

from_cache_failed :
    (o : Outside) (m : Meets) (d : Dispatcher) (key : Text) (r : Redis) (url : Option Text)
    (run : Outcome Json) (found : Option Json)
    → d.redis ≡ some r
    → is_returned (from_cache o m d key r url run found).1 ≡ false
    → (from_cache o m d key r url run found).0.redis ≡ d.redis
from_cache_failed o m d key r url run (some j) e h = refl
from_cache_failed o m d key r url (returned j) none e h = absurd (ground arith)
from_cache_failed o m d key r url (refused t) none e h = sym e
from_cache_failed o m d key r url raised none e h = sym e

through_redis_failed :
    (o : Outside) (m : Meets) (d : Dispatcher) (name : Text) (inputs : Fields) (b : Bool)
    (url : Option Text) (run : Outcome Json)
    → is_returned (through_redis o m d name inputs b url run).1 ≡ false
    → (through_redis o m d name inputs b url run).0.redis ≡ d.redis
through_redis_failed o m d name inputs b url run h = elim (Option-cases d.redis) [
  | inl e ↦ ground (arith, e)
  | inr (r, e) ↦ ground (
    arith,
    e,
    from_cache_failed o m d (cache_key o name inputs) r url run
        (cached o m (cache_key o name inputs) r) e,
  )
]

with_contract_failed :
    (o : Outside) (m : Meets) (d : Dispatcher) (name : Text) (inputs : Fields) (c : ToolContract)
    → is_returned (with_contract o m d name inputs c).1 ≡ false
    → (with_contract o m d name inputs c).0.redis ≡ d.redis
unfolding with_contract
with_contract_failed o m d name inputs c h = elim (Option-cases (synthetic o c.endpoint)) [
  | inr (j, e) ↦ ground (arith, e)
  | inl e ↦ ground (
    arith,
    e,
    through_redis_failed o m d name inputs (is_cacheable (type_of c))
        (extract_api_url o (type_of c) c.endpoint inputs)
        (executed o name (type_of c) c.endpoint inputs),
  )
]

by_contract_failed :
    (o : Outside) (m : Meets) (d : Dispatcher) (name : Text) (inputs : Fields)
    (found : Outcome ToolContract)
    → is_returned (by_contract o m d name inputs found).1 ≡ false
    → (by_contract o m d name inputs found).0.redis ≡ d.redis
by_contract_failed o m d name inputs (returned c) h = with_contract_failed o m d name inputs c h
by_contract_failed o m d name inputs (refused t) h = refl
by_contract_failed o m d name inputs raised h = refl

through_live_redis :
    (o : Outside) (m : Meets) (d : Dispatcher) (name : Text) (inputs : Fields)
    (l : Option LiveClient)
    → (through_live o m d name inputs l).0.redis ≡ d.redis
unfolding through_live
through_live_redis o m d name inputs none = refl
through_live_redis o m d name inputs (some client) = ground arith

-- A dispatch that ends in an error, whichever and of whichever type of tool, leaves Redis as it was:
-- no failure is ever cached.
pub dispatch_failed :
    (o : Outside) (m : Meets) (d : Dispatcher) (name : Text) (inputs : Fields)
    → is_returned (dispatch_with_url o m d name inputs).1 ≡ false
    → (dispatch_with_url o m d name inputs).0.redis ≡ d.redis
unfolding dispatch_with_url
dispatch_failed o m d name inputs h = ground (
  arith,
  through_live_redis o m d name inputs d.live,
  by_contract_failed o m d name inputs (resolve_contract name m.list_tools),
)
