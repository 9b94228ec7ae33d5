-- ===== src/Service/Start/Opened.antt =====
-- What the service has open at its end.
mod Tests
use chat_aiagent.Prelude.{
  ◌≡◌, refl, inl, inr, Bool, true, false, Option, none, some, [], ◌∷◌, Text, codes, Option-cases,
  Bool-cases, List-cases, is_some, is_empty, or_else, not, ◌&&◌, ◌||◌, ◌∙◌, ap, if◌then◌else◌,
  arith,
}
use chat_aiagent.Runtime.{BaseAgent, Ended, start_raised, stop_raised, stopped, lifespan}
use chat_aiagent.Tools.Credentials.{Outside}
use chat_aiagent.Service.Start.{
  Open, closed, Settings, Outcome, ready, failed, Services, settings_of, connected, configured,
  with_urls, registry_url_of, on_start, on_stop,
}

module _ {N : Type 0} where
  abbrev is_ready : Outcome N → Bool
  is_ready (ready settings) = true
  is_ready (failed f) = false

-- Both URLs are given.
abbrev pub has_urls : Outside → Bool
has_urls env =
    is_some (env.environ (codes "CHECKPOINTER_URL"))
    && not (is_empty (or_else (env.environ (codes "REGISTRY_SERVICE_URL")) []))

-- The start comes to the client of Redis.
abbrev pub makes_client : Outside → Services → Bool
makes_client env s = has_urls env && (s.models && s.from_url)

abbrev pub is_up : Ended → Bool
is_up start_raised = false
is_up _ = true

-- A start that comes through has both open.
abbrev holds : {N : Type 0} → Open × Outcome N → Bool
holds (o, out) = not (is_ready out) || (o.redis && o.checkpointer)

on_stop_redis : (s : Services) (o : Open) → (on_stop s o).0.redis ≡ (o.redis && not s.aclose)
unfolding on_stop
on_stop_redis s o = ground arith

on_stop_checkpointer :
    (s : Services) (o : Open)
    → o.redis ≡ true
    → (on_stop s o).0.checkpointer ≡ (o.checkpointer && not (s.aclose && s.leave))
unfolding on_stop
on_stop_checkpointer s o h = ground (arith, h)

stop-is_up : (b : Bool) → is_up (if b then stopped else stop_raised) ≡ true
stop-is_up true = refl
stop-is_up false = refl

holds_both :
    {N : Type 0} (r : Open × Outcome N)
    → is_ready r.1 ≡ true
    → holds r ≡ true
    → (r.0.redis ≡ true) × (r.0.checkpointer ≡ true)
holds_both (o, ready st) y h = (ground (arith, h), ground (arith, h))
holds_both (o, failed f) y h = absurd (ground (arith, y))

and_true : (b : Bool) → b ≡ (b && true)
and_true b = ground arith

-- What a stop leaves open of what was open.
left_open :
    (b r : Bool) (s : Services) (o : Open)
    → o.redis ≡ r
    → (o.redis ≡ true) × (o.checkpointer ≡ true)
    → let up = is_up (if b then stopped else stop_raised) in
      ((on_stop s o).0.redis ≡ (r && not (up && s.aclose)))
      × ((up && (on_stop s o).0.checkpointer) ≡ (up && not (s.aclose && s.leave)))
left_open b r s o q (h, k) = rw (stop-is_up b) (
  on_stop_redis s o ∙ ap (λ x. x && not s.aclose) q,
  on_stop_checkpointer s o h ∙ ap (λ x. x && not (s.aclose && s.leave)) k,
)

module _ {N : Type 0} (int : Text → Option N) (env : Outside) (s : Services) where
  -- The agent with the start and the stop of the service.
  abbrev pub started : {E : Type 0} → BaseAgent Open E → BaseAgent Open E
  started agent = record agent {
    on_start = λ o. let (o', out) = on_start int env s o in (o', is_ready out);
    on_stop = on_stop s;
  }

  connected_redis : (st : Settings N) (o : Open) → (connected int env s st o).0.redis ≡ o.redis
  connected_redis st o = ground arith

  configured_redis :
      (st : Option (Settings N)) (o : Open) → (configured int env s st o).0.redis ≡ o.redis
  configured_redis none o = ground arith
  configured_redis (some st) o = elim (Bool-cases s.ping) [
    | inl e ↦ rw e (connected_redis st o)
    | inr e ↦ rw e refl
  ]

  with_urls_redis :
      (url registry : Text)
      → (with_urls int env s url registry closed).0.redis
        ≡ (not (is_empty registry) && (s.models && s.from_url))
  with_urls_redis url [] = refl
  with_urls_redis url (c ∷ t) = elim (Bool-cases s.models) [
    | inl m ↦ elim (Bool-cases s.from_url) [
      | inl f ↦ rw m (
          rw f
            (configured_redis (settings_of int env url (c ∷ t)) (record closed { redis = true })))
      | inr f ↦ rw m (rw f refl)
    ]
    | inr m ↦ rw m refl
  ]

  connected-holds :
      (st : Settings N) → holds (connected int env s st (record closed { redis = true })) ≡ true
  connected-holds st = ground arith

  configured-holds :
      (st : Option (Settings N))
      → holds (configured int env s st (record closed { redis = true })) ≡ true
  configured-holds none = ground arith
  configured-holds (some st) = elim (Bool-cases s.ping) [
    | inl e ↦ rw e (connected-holds st)
    | inr e ↦ rw e refl
  ]

  with_urls-holds : (url registry : Text) → holds (with_urls int env s url registry closed) ≡ true
  with_urls-holds url [] = refl
  with_urls-holds url (c ∷ t) = elim (Bool-cases s.models) [
    | inl m ↦ elim (Bool-cases s.from_url) [
      | inl f ↦ rw m (rw f (configured-holds (settings_of int env url (c ∷ t))))
      | inr f ↦ rw m (rw f refl)
    ]
    | inr m ↦ rw m refl
  ]

  on_start_opened :
      ((on_start int env s closed).0.redis ≡ makes_client env s)
      × (holds (on_start int env s closed) ≡ true)
  unfolding on_start
  on_start_opened = elim (Option-cases (env.environ (codes "CHECKPOINTER_URL"))) [
    | inl e ↦ (ground (arith, e), ground (arith, e))
    | inr (url, e) ↦
        let same : on_start int env s closed
            ≡ with_urls int env s url (registry_url_of int env) closed =
          ground (arith, e) in
        (
          rw same (rw e (with_urls_redis url (registry_url_of int env))),
          rw same (with_urls-holds url (registry_url_of int env)),
        )
  ]

  -- The client of Redis is open at the end of the service where the start came to making it, that is,
  -- both URLs are given and neither the models nor the client itself raised, and no stop closed it: a
  -- start that raises behind it is never stopped, and a stop closes it unless aclose raises. Of a
  -- service that came up, the checkpointer is open at the end where the client or the checkpointer
  -- itself raised at the stop.
  pub lifespan-on_start :
      {E : Type 0} (agent : BaseAgent Open E)
      → let l = lifespan (started agent) (λ o. o) closed in
        (l.0.redis ≡ (makes_client env s && not (is_up l.1 && s.aclose)))
        × ((is_up l.1 && l.0.checkpointer) ≡ (is_up l.1 && not (s.aclose && s.leave)))
  unfolding lifespan
  lifespan-on_start agent = elim (Bool-cases (is_ready (on_start int env s closed).1)) [
    | inl e ↦
        let r = on_start int env s closed in
        rw e (
          left_open (on_stop s r.0).1 (makes_client env s) s r.0 on_start_opened.0
            (holds_both r e on_start_opened.1))
    | inr e ↦ rw e (on_start_opened.0 ∙ and_true (makes_client env s), refl)
  ]
