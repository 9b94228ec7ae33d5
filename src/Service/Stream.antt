-- ===== src/Service/Stream.antt =====
-- worker_agent/main.py, publish_stream: the events of a run of the graph, published on a channel and
-- appended to the list of the thread. A payload stands for the text that json.dumps makes of it. The
-- expiry of the list is left out.
pub mod Terminal
pub mod Certain
mod Tests
use chat_aiagent.Prelude.{
  ℕ, suc, ◌+◌, String, Bool, true, false, not, ◌||◌, Option, none, some, List, [], ◌∷◌, ◌++◌, Text,
  codes, join, is_empty, is_empty_text, ◌=s=◌, if◌then◌else◌,
}
use chat_aiagent.Prelude.Json.{Json}

-- What the graph's stream of events yields: the end of a call of the model, with its tokens and its
-- text, if the content is text; the start or the end of a chain, with the node of its metadata and
-- its own name; another event.
pub data Event : Type 0 where
  model_end : ℕ → ℕ → Option Text → Event
  chain_start : String → String → Json → Event
  chain_end : String → String → Json → Event
  other : Event

pub data Payload : Type 0 where
  node_start : String → Json → Payload
  node_end : String → Json → Payload
  usage : ℕ → ℕ → Payload
  interrupt : List String → List Json → Payload
  done : Payload
  error : Text → Payload

-- Redis as a run meets it: whether the n-th publication and the n-th append work.
pub record Works : Type 0 where
  pub publishes : ℕ → Bool
  pub appends : ℕ → Bool
  -- the text of the exception of a publication
  pub reason : Text

pub record Redis : Type 0 where
  pub published : List Payload
  pub events : List Payload
  pub calls : ℕ

pub record Tally : Type 0 where
  pub input_tokens : ℕ
  pub output_tokens : ℕ
  pub output_texts : List Text

-- How the graph's stream ends, and the state that is read behind it.
pub record Run : Type 0 where
  pub stream : List Event
  pub stream_error : Option Text
  -- the text of the exception, or the next nodes and the values of the interrupts
  pub state_error : Option Text
  pub next : List String
  pub interrupts : List Json

-- What the function leaves: Redis, whether the collector of the thread is kept, and the text that is
-- given to the safety scan, if it is.
pub record Left : Type 0 where
  pub redis : Redis
  pub collector_kept : Bool
  pub scanned : Option Text

-- The list of the thread behind an append, which drops what it raises.
abbrev pub append_event : Works → Payload → Redis → List Payload
append_event w p r = if w.appends r.calls then r.events ++ p ∷ [] else r.events

abbrev pub emitted : Works → Payload → Redis → Bool → Redis × Bool
emitted w p r true = (
  record { published = r.published ++ p ∷ []; events = append_event w p r; calls = suc r.calls },
  true,
)
emitted w p r false = (record r { calls = suc r.calls }, false)

-- A publication and the append behind it; the flag is false where the publication raises.
unfoldable pub emit : Works → Payload → Redis → Redis × Bool
emit w p r = emitted w p r (w.publishes r.calls)

abbrev pub of_node : String → String → Payload → Option Payload
of_node node name p = if node =s= "" then none else if name =s= node then some p else none

-- The payload of an event that is passed on.
unfoldable pub payload_of : Event → Option Payload
payload_of (model_end i o t) = none
payload_of (chain_start node name d) = of_node node name (node_start node d)
payload_of (chain_end node name d) = of_node node name (node_end node d)
payload_of other = none

abbrev with_text : Option Text → List Text → List Text
with_text none ts = ts
with_text (some t) ts = if is_empty_text t then ts else ts ++ t ∷ []

unfoldable pub tallied : Event → Tally → Tally
tallied (model_end i o t) c = record {
  input_tokens = c.input_tokens + i;
  output_tokens = c.output_tokens + o;
  output_texts = with_text t c.output_texts;
}
tallied _ c = c

unfoldable pub emit_events : Works → List Event → Redis → Tally → Redis × Tally × Bool
unfolding emit payload_of tallied
emit_events w [] r c = (r, c, true)
emit_events w (e ∷ es) r c = elim (payload_of e) [
  | none ↦ emit_events w es r (tallied e c)
  | some p ↦
      let (r', ok) = emit w p r in
      elim ok [ true ↦ emit_events w es r' (tallied e c) | false ↦ (r', c, false) ]
]

abbrev pub fresh : Tally
fresh = record { input_tokens = 0; output_tokens = 0; output_texts = [] }

abbrev pub scan_of : Tally → Option Text
scan_of c = if is_empty c.output_texts then none else some (join (codes " ") c.output_texts)

-- The `except` clause: what its own publication raises is dropped.
unfoldable pub failed : Works → Text → Option Text → Redis → Left
unfolding emit
failed w reason scan r = record {
  redis = (emit w (error reason) r).0;
  collector_kept = false;
  scanned = scan;
}

abbrev pub terminal_of : Run → Payload
terminal_of run = if is_empty run.next then done else interrupt run.next run.interrupts

abbrev pub ended : Works → Run → Option Text → Redis × Bool → Left
ended w run scan (r, true) = record {
  redis = r;
  collector_kept = not (is_empty run.next);
  scanned = scan;
}
ended w run scan (r, false) = failed w w.reason scan r

abbrev pub after_usage : Works → Run → Tally → Redis × Bool → Left
after_usage w run c (r, false) = failed w w.reason none r
after_usage w run c (r, true) = elim run.state_error [
  | some t ↦ failed w t (scan_of c) r
  | none ↦ ended w run (scan_of c) (emit w (terminal_of run) r)
]

abbrev pub after_events : Works → Run → Redis × Tally × Bool → Left
after_events w run (r, c, false) = failed w w.reason none r
after_events w run (r, c, true) = elim run.stream_error [
  | some t ↦ failed w t none r
  | none ↦ after_usage w run c (emit w (usage c.input_tokens c.output_tokens) r)
]

unfoldable pub publish_stream : Works → Run → Redis → Left
unfolding emit emit_events failed
publish_stream w run r = after_events w run (emit_events w run.stream r fresh)
