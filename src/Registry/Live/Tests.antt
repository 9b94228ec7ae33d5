-- ===== src/Registry/Live/Tests.antt =====
-- The tools of one server, twice.
use chat_aiagent.Prelude.{◌≡◌, refl, Option, none, some, List, [], ◌∷◌, Text, codes, arith}
use chat_aiagent.Registry.Live.{
  Tool, LiveClient, fetch_server_list, fetch_tools, contracts, from_servers, list_tools_all,
  flush_cache,
}
use chat_aiagent.Registry.Live.Fresh.{Fetch, run_fetches, fetch_tools_again}

abbrev routes : Tool
routes = record { name = codes "routes"; description = none; properties = [] }

abbrev answers : Text → Option (List Tool)
answers url = some (routes ∷ [])

abbrev silent : Text → Option (List Tool)
silent url = none

abbrev client : LiveClient
client = record {
  registry_url = codes "http://reg";
  ttl = 60;
  server_cache = none;
  tool_cache = [];
}

abbrev elsewhere : Fetch
elsewhere = record { at = 5; url = codes "http://b"; list_tools = answers }

fetch_tools_again_example :
    fetch_tools silent 59
      (codes "http://a")
      (run_fetches (elsewhere ∷ []) (fetch_tools answers 0 (codes "http://a") client).0)
    ≡ (
      run_fetches (elsewhere ∷ []) (fetch_tools answers 0 (codes "http://a") client).0,
      routes ∷ [],
    )
fetch_tools_again_example =
    fetch_tools_again answers silent 0 59 (codes "http://a") client (routes ∷ []) (elsewhere ∷ [])
      refl refl ((ground arith), tt) (omega arith)

-- A server that does not answer is skipped, and nothing is cached for it.
silent_server :
    list_tools_all
      (λ url. some (record { name = codes "n"; url = codes "http://n" } ∷ []))
      silent
      (λ i. i)
      client
    ≡ (
      record client {
        server_cache = some (60, record { name = codes "n"; url = codes "http://n" } ∷ []);
      },
      some [],
    )
unfolding list_tools_all fetch_server_list from_servers fetch_tools contracts
silent_server = refl

flushed :
    (fetch_tools silent 1
      (codes "http://a")
      (flush_cache (fetch_tools answers 0 (codes "http://a") client).0)).1
    ≡ []
unfolding fetch_tools flush_cache
flushed = refl
