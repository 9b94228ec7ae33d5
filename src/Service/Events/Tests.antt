-- ===== src/Service/Events/Tests.antt =====
-- Two pages, a race, and a caller.
use chat_aiagent.Prelude.{
  ◌≡◌, refl, Bool, Option, some, [], ◌∷◌, ◌++◌, Text, codes, lookup, strip, is_space, arith,
}
use chat_aiagent.Prelude.Json.{Json, null, bool, str, arr, obj, nil, cons, end, field}
use chat_aiagent.Service.Events.{
  get_events, remediation_result, no_data, extract_auth_from_headers, message, interrupt, sequence,
  plain, value, no_values, serialise,
}
use chat_aiagent.Service.Events.Paging.{get_events_on}

abbrev texts : Text → Option Json
texts t = some (str t)

get_events_on_example :
    (get_events texts 1 (codes "a" ∷ codes "b" ∷ []) (codes "a" ∷ codes "b" ∷ [])).events
      ++ (get_events texts 2
          (codes "a" ∷ codes "b" ∷ codes "c" ∷ [])
          (codes "a" ∷ codes "b" ∷ codes "c" ∷ [])).events
    ≡ (get_events texts 1
        (codes "a" ∷ codes "b" ∷ codes "c" ∷ [])
        (codes "a" ∷ codes "b" ∷ codes "c" ∷ [])).events
unfolding get_events
get_events_on_example =
    get_events_on texts 1 (codes "a" ∷ codes "b" ∷ []) (codes "c" ∷ []) (omega arith)

-- An event that is appended between LRANGE and LLEN is counted, and not on the page.
counted_unseen : get_events texts 0 [] (codes "a" ∷ []) ≡ record { events = []; total = 1 }
unfolding get_events
counted_unseen = refl

blank_result : remediation_result texts (some (some (some []))) ≡ some no_data
unfolding remediation_result
blank_result = refl

caller :
    extract_auth_from_headers (
      ("x-user-id", codes "u")
      ∷ ("x-tenant-id", codes "t")
      ∷ ("authorization", codes "Bearer j ")
      ∷ [])
    ≡ some (record { user_id = codes "u"; tenant_id = codes "t"; token = codes "j" })
unfolding extract_auth_from_headers lookup strip is_space
caller = refl

serialised :
    serialise (
      sequence (
        value
          (message (codes "ai") (str (codes "hi")))
          (value (interrupt (plain null) Bool.true) no_values)))
    ≡ arr (
        cons
          (obj (field "role" (str (codes "ai")) (field "content" (str (codes "hi")) end)))
          (cons (obj (field "value" null (field "resumable" (bool Bool.true) end))) nil))
serialised = refl
