-- ===== src/Remediation.antt =====
-- remediation_agent/main.py: from the text of the model to the plan that is answered. The model,
-- json.loads and the texts of exceptions are arguments.
pub mod Fences
mod Tests
use chat_aiagent.Prelude.{
  ℕ, suc, String, Bool, true, false, Option, none, some, List, [], ◌∷◌, ◌++◌, Text, codes,
  starts_with, strip, drop, length, if◌then◌else◌, or_else, text_eq,
}
use chat_aiagent.Prelude.Json.{Json, str, arr, obj, Items, nil, cons, Fields, end, field, get}
use chat_aiagent.Tools.Texts.{cut}

abbrev pub fence : Text
fence = 96 ∷ 96 ∷ 96 ∷ []

abbrev consed : ℕ → Option Text → Option Text
consed c none = none
consed c (some t) = some (c ∷ t)

-- What stands before the last occurrence of a separator, if there is one.
unfoldable pub before_last : Text → Text → Option Text
before_last sep [] = none
before_last sep (c ∷ t) = elim (before_last sep t) [
  | some a ↦ some (c ∷ a)
  | none ↦ if starts_with (c ∷ t) sep then some [] else none
]

-- `t.split("```", 2)[1]` of a text with a fence
abbrev pub second_part : Option (Text × Text) → Text → Text
second_part none t = t
second_part (some (a, rest)) t = elim (cut fence rest) [ none ↦ rest | some (b, c) ↦ b ]

abbrev pub without_json : Text → Text
without_json t = if starts_with t (codes "json") then drop 4 t else t

-- `t.rsplit("```", 1)[0]`
abbrev pub body_of : Text → Text
body_of t = or_else (before_last fence t) t

-- The text in a fence of Markdown, without its surrounding white space; a text without a fence is
-- left as it is.
unfoldable pub unfenced : Text → Text
unfolding before_last
unfenced raw =
    if starts_with raw fence
    then strip (body_of (without_json (second_part (cut fence raw) raw)))
    else raw

-- The plan, or the exception that reading it raises.
pub data Planned : Type 0 where
  plan : Json → Planned
  raised : Planned

-- `s.get("risk") == "DESTRUCTIVE"` on each step, and `len`; only objects have `get`.
abbrev pub is_object : Json → Bool
is_object (obj fs) = true
is_object _ = false

abbrev pub all_objects : Items → Bool
all_objects nil = true
all_objects (cons v vs) = let rest = all_objects vs in if is_object v then rest else false

abbrev pub count_of : Bool → Option Json → Bool
count_of counted none = true
count_of counted (some (arr vs)) = if counted then all_objects vs else true
count_of counted (some (obj fs)) =
    if counted then elim fs [ end ↦ true | field k v gs ↦ false ] else true
count_of counted (some (str t)) = if counted then text_eq t [] else true
count_of counted (some _) = false

-- What is logged of the plan: `counted` where the destructive steps are counted too.
abbrev pub logged : Bool → Json → Planned
logged counted (obj fs) = if count_of counted (get "steps" fs) then plan (obj fs) else raised
logged counted _ = raised

abbrev pub summary_of : Text → Json
summary_of raw = obj (field "summary" (str raw) (field "steps" (arr nil) end))

abbrev pub planned : Bool → Text → Option Json → Planned
planned counted raw none = plan (summary_of raw)
planned counted raw (some j) = logged counted j

-- graph_invoke: the model's text, or none where the call raises.
pub data Response : Type 0 where
  answered : Json → Text → Text → Response
  server_error : Response

abbrev pub response_of : Text → Text → Planned → Response
response_of caller thread_id (plan j) = answered j caller thread_id
response_of caller thread_id raised = server_error

unfoldable pub graph_invoke : (Text → Option Json) → Text → Text → Option Text → Response
unfolding unfenced get
graph_invoke loads caller thread_id none = server_error
graph_invoke loads caller thread_id (some text) =
    let raw = unfenced (strip text) in response_of caller thread_id (planned true raw (loads raw))

-- The events of graph_invoke_stream.
pub data Event : Type 0 where
  chunk : Text → Event
  done : Json → Text → Text → Event
  error : Event

abbrev last_event : Text → Text → Planned → Event
last_event caller thread_id (plan j) = done j caller thread_id
last_event caller thread_id raised = error

abbrev chunks : List Text → List Event
chunks [] = []
chunks (t ∷ ts) = chunk t ∷ chunks ts

abbrev joined : List Text → Text
joined [] = []
joined (t ∷ ts) = t ++ joined ts

-- `complete` is false where the model's stream raises behind its texts.
unfoldable pub graph_invoke_stream :
    (Text → Option Json) → Text → Text → List Text → Bool → List Event
unfolding unfenced get
graph_invoke_stream loads caller thread_id texts complete =
    let raw = unfenced (strip (joined texts)) in
    chunks texts
    ++ (if complete then last_event caller thread_id (planned false raw (loads raw)) else error)
      ∷ []

-- What the model is asked for a thread and the findings.
pub invoke_prompt : Text → Text → Text
invoke_prompt thread_id findings =
    codes "Analysis findings from SRE investigation (thread "
    ++ (thread_id
        ++ (codes "):\n\n" ++ (findings ++ codes "\n\nProduce the JSON remediation plan now.")))

-- The endpoint from its request to its response, `model` being the model under the system prompt; the
-- calling agent is that of the header, which Envoy sets.
unfoldable pub invoke_endpoint :
    (Text → Option Json) → (Text → Option Text) → Text → Text → Text → Response
unfolding graph_invoke invoke_prompt
invoke_endpoint loads model caller findings thread_id =
    graph_invoke loads caller thread_id (model (invoke_prompt thread_id findings))
