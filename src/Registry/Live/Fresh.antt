-- ===== src/Registry/Live/Fresh.antt =====
-- The cache of the tools of each server, while its entries are good.
use chat_aiagent.Prelude.{
  ℕ, ◌+◌, ◌<◌, ◌≡◌, ◌≢◌, refl, inl, inr, ◌∙◌, Option, none, some, List, [], ◌∷◌, Text, All, arith,
  Option-cases,
}
use chat_aiagent.Prelude.Words.{text_eq_sound, text_eq_refl}
use chat_aiagent.Registry.Live.{Tool, LiveClient, at_url, set_url, good, fetch_tools}

-- One later fetch of the tools of a server, with what the servers would answer.
pub record Fetch : Type 0 where
  pub at : ℕ
  pub url : Text
  pub list_tools : Text → Option (List Tool)

unfoldable pub run_fetches : List Fetch → LiveClient → LiveClient
run_fetches [] c = c
run_fetches (f ∷ fs) c = run_fetches fs (fetch_tools f.list_tools f.at f.url c).0

pub at_url_same {ℓ} :
    {A : Type ℓ} (u : Text) (a : A) (m : List (Text × A)) → at_url u (set_url u a m) ≡ some a
at_url_same u a [] = ground (arith, text_eq_refl u)
at_url_same u a ((v, b) ∷ rest) = ground (arith, text_eq_refl u, at_url_same u a rest)

pub at_url_other {ℓ} :
    {A : Type ℓ} (u w : Text) (a : A) (m : List (Text × A))
    → u ≢ w
    → at_url u (set_url w a m) ≡ at_url u m
at_url_other u w a [] ne = ground (arith, text_eq_sound w u)
at_url_other u w a ((v, b) ∷ rest) ne = ground (
  arith,
  text_eq_sound w u,
  text_eq_sound v u,
  text_eq_sound v w,
  text_eq_refl v,
  at_url_other u w a rest ne,
)

fetch_tools-at_url_other :
    (u : Text) (f : Fetch) (c : LiveClient)
    → u ≢ f.url
    → at_url u (fetch_tools f.list_tools f.at f.url c).0.tool_cache ≡ at_url u c.tool_cache
unfolding fetch_tools
fetch_tools-at_url_other u f c ne = elim (Option-cases (good f.at (at_url f.url c.tool_cache))) [
  | inr (ts, e) ↦ ground (arith, e)
  | inl e ↦ elim (Option-cases (f.list_tools f.url)) [
    | inl n ↦ ground (arith, e, n)
    | inr (ts, n) ↦ ground (arith, e, n, at_url_other u f.url (f.at + c.ttl, ts) c.tool_cache ne)
  ]
]

abbrev Elsewhere : Text → Fetch → Type 0
Elsewhere u f = u ≢ f.url

run_fetches-at_url :
    (u : Text) (fs : List Fetch) (c : LiveClient)
    → All (Elsewhere u) fs
    → at_url u (run_fetches fs c).tool_cache ≡ at_url u c.tool_cache
unfolding run_fetches
run_fetches-at_url u [] c s = refl
run_fetches-at_url u (f ∷ fs) c s =
    run_fetches-at_url u fs (fetch_tools f.list_tools f.at f.url c).0 s.1
    ∙ fetch_tools-at_url_other u f c s.0

fetched :
    (list_tools : Text → Option (List Tool)) (now : ℕ) (url : Text) (c : LiveClient)
    (ts : List Tool)
    → good now (at_url url c.tool_cache) ≡ none
    → list_tools url ≡ some ts
    → at_url url (fetch_tools list_tools now url c).0.tool_cache ≡ some (now + c.ttl, ts)
unfolding fetch_tools
fetched list_tools now url c ts e n =
    ground (arith, e, n, at_url_same url (now + c.ttl, ts) c.tool_cache)

-- Tools that a server has listed are what every later fetch of this server's tools gives, until the
-- time to live has passed since the clock was read before the request (not since the answer), and no
-- server is asked for them again: whatever has been fetched from other servers in between, and
-- whatever the servers would answer by then.
pub fetch_tools_again :
    (list_tools later : Text → Option (List Tool)) (now at : ℕ) (url : Text) (c : LiveClient)
    (ts : List Tool) (between : List Fetch)
    → good now (at_url url c.tool_cache) ≡ none
    → list_tools url ≡ some ts
    → All (Elsewhere url) between
    → at < now + c.ttl
    → fetch_tools later at url (run_fetches between (fetch_tools list_tools now url c).0)
      ≡ (run_fetches between (fetch_tools list_tools now url c).0, ts)
unfolding fetch_tools
fetch_tools_again list_tools later now at url c ts between e n s h = ground (
  arith,
  fetched list_tools now url c ts e n,
  run_fetches-at_url url between (fetch_tools list_tools now url c).0 s,
)
