-- ===== src/Registry/Client/Tests.antt =====
-- The client with an expired token, and with a playbook that is missing.
use chat_aiagent.Prelude.{◌≡◌, refl, Option, none, some, List, [], ◌∷◌, codes}
use chat_aiagent.Prelude.Json.{Json}
use chat_aiagent.Registry.Base.{Playbook}
use chat_aiagent.Registry.Client.{
  Key, Value, absent, chunks, Client, cached, set, auth_failed, granted, response, request_failed,
  World, get_token, fetched, fetch,
}
use chat_aiagent.Registry.Client.Refines.{Op, set_op, flush_op, run_ops, cached-refines}
use chat_aiagent.Registry.Client.Retries.{Asked, fetch-Asked}
use chat_aiagent.Registry.Client.Queries.{Answer, Meets, get_playbook}
use chat_aiagent.Registry.Client.Searches.{search_domains}

abbrev client : Client
client = record {
  base_url = codes "http://reg";
  ttl = 60;
  cache = [];
  credentials =
      some (record { auth_url = codes "http://auth"; username = codes "u"; password = codes "p" });
  token = some (codes "old");
  token_expires_at = 500;
}

abbrev world : World
world = record {
  checked_at = 100;
  granted_at = 100;
  first_auth = auth_failed;
  regranted_at = 101;
  second_auth = granted (codes "new") none;
  first_response = λ path t. response 401 none;
  second_response = λ path t. response 404 none;
}

fetched_again : fetch world (codes "/tools") client ≡ (
  record client { token = some (codes "new"); token_expires_at = 3701 },
  (codes "/tools", some (codes "old")) ∷ (codes "/tools", some (codes "new")) ∷ [],
  fetched none,
)
unfolding fetch get_token
fetched_again = refl

fetch-Asked_example : Asked world (codes "/tools") (fetch world (codes "/tools") client).1
fetch-Asked_example = fetch-Asked world (codes "/tools") client

abbrev key : Key
key = some (codes "rag_context") ∷ []

abbrev ops : List Op
ops = set_op 70 key (chunks (codes "b" ∷ [])) ∷ set_op 5 key absent ∷ flush_op ∷ []

cached-refines_example : cached 129 key (run_ops ops client) ≡ some (chunks (codes "b" ∷ []))
cached-refines_example = cached-refines ops client 129 key refl

abbrev meets : Meets
meets = record { read_at = 100; set_at = 101; world = world }

abbrev no_playbook : Json → Option Playbook
no_playbook j = none

-- A playbook that is missing is kept as None, which reads like no entry: the next query fetches again
-- and fails where the registry has gone.
missing_again :
    (get_playbook no_playbook
      (record meets { world = record world { first_response = λ path t. request_failed } })
      (codes "net")
      none
      (get_playbook no_playbook meets (codes "net") none client).0).1
    ≡ Answer.registry_unavailable
unfolding get_playbook fetch get_token cached set
missing_again = refl

-- A search that fails is not kept.
failed_search : search_domains meets (codes "vpn") 5 none client ≡ (client, Value.domains [])
unfolding search_domains cached
failed_search = refl
