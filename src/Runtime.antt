-- ===== src/Runtime.antt =====
-- worker_agent/runtime: the interface of an agent (base.py) and the endpoints that are served over it
-- (serve.py). A line of a stream stands for the text of its event, which json.dumps makes, or raises.
-- FastAPI, the validation of a request and the logs are left out.
pub mod Lines
use chat_aiagent.Prelude.{
  String, Bool, true, false, Option, none, some, List, [], ◌∷◌, Text, if◌then◌else◌,
}
use chat_aiagent.Prelude.Json.{Json, obj, Fields}

pub record TurnRequest : Type 0 where
  pub message : Text
  pub thread_id : String
  pub config : Fields

-- What a turn returns, or the text of its exception.
pub data Output : Type 0 where
  output : Json → Output
  raised : Text → Output

-- What a stream yields, and the text of the exception that it ends by, if it does.
pub record Streamed (E : Type 0) : Type 0 where
  pub events : List E
  pub error : Option Text

-- How the service ends; behind a start that raises nothing is served or stopped.
pub data Ended : Type 0 where
  start_raised stop_raised stopped : Ended

-- An agent over a state of its own; the flag of `on_start` and of `on_stop` is false where it raises.
pub record BaseAgent (S E : Type 0) : Type 0 where
  pub name : String
  pub version : String
  pub turn : Text → String → Fields → S → S × Output
  pub stream : Text → String → Fields → S → S × Streamed E
  pub on_start : S → S × Bool
  pub on_stop : S → S × Bool

pub data TurnResponse : Type 0 where
  turn_response : String → Fields → TurnResponse
  -- status 500, with the detail
  server_error : Text → TurnResponse

pub data Line (E : Type 0) : Type 0 where
  data_line : E → Line E
  done_line : Line E
  error_line : Text → Line E

module _ {E : Type 0} where
  abbrev pub last_line : Option Text → Line E
  last_line none = done_line
  last_line (some t) = error_line t

  -- The events, of which `dumps` tells whether they have a text; `reason` is what json.dumps raises.
  abbrev pub event_lines : (E → Bool) → Text → Option Text → List E → List (Line E)
  event_lines dumps reason ends [] = last_line ends ∷ []
  event_lines dumps reason ends (e ∷ es) =
      let rest = event_lines dumps reason ends es in
      if dumps e then data_line e ∷ rest else error_line reason ∷ []

module _ {S E : Type 0} (agent : BaseAgent S E) where
  -- `reason` is the text of what TurnResponse raises for an output that is no object.
  abbrev responded : Text → String → Output → TurnResponse
  responded reason t (output (obj fs)) = turn_response t fs
  responded reason t (output v) = server_error reason
  responded reason t (raised text) = server_error text

  unfoldable pub turn : Text → TurnRequest → S → S × TurnResponse
  turn reason req s =
      let (s', out) = agent.turn req.message req.thread_id req.config s in
      (s', responded reason req.thread_id out)

  unfoldable pub stream : (E → Bool) → Text → TurnRequest → S → S × List (Line E)
  stream dumps reason req s =
      let (s', out) = agent.stream req.message req.thread_id req.config s in
      (s', event_lines dumps reason out.error out.events)

  abbrev pub stop : S → S × Ended
  stop s = let (s', ok) = agent.on_stop s in (s', if ok then stopped else stop_raised)

  -- The service from its start to its stop; what it answers in between is `body`.
  unfoldable pub lifespan : (S → S) → S → S × Ended
  lifespan body s =
      let (s', ok) = agent.on_start s in if ok then stop (body s') else (s', start_raised)

  abbrev pub health : String × String
  health = ("ok", agent.name)

  abbrev pub info : String × String
  info = (agent.name, agent.version)
