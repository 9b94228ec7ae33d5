-- ===== src/Tools/Base.antt =====
-- What the executors of worker_agent/tools/dispatcher.py share: what a call ends with, what is outside
-- of the program, and the URL with its placeholders. The keys of an endpoint that are read as text
-- hold text, where they are there; the URL and the method that are sent are text.
use chat_aiagent.Prelude.{
  ℕ, String, Bool, ◌&&◌, leb, Option, none, some, List, [], ◌∷◌, ◌++◌, Text, Dict, lookup, codes,
  map, if◌then◌else◌, ◌-◌,
}
use chat_aiagent.Prelude.Json.{Json, str, Fields, end, field}
use chat_aiagent.Tools.Texts.{replace}
use chat_aiagent.Tools.Credentials

-- A result, a DispatchError with its message, or another exception.
pub data Outcome (A : Type 0) : Type 0 where
  returned : A → Outcome A
  refused : Text → Outcome A
  raised : Outcome A

abbrev pub then_on : {A B : Type 0} → Outcome A → (A → Outcome B) → Outcome B
then_on (returned a) f = f a
then_on (refused t) f = refused t
then_on raised f = raised

-- `exec` of a script and the call of its `run`
pub data ScriptRun : Type 0 where
  syntax_error : Text → ScriptRun
  no_run : ScriptRun
  timed_out : ScriptRun
  ran : Json → ScriptRun
  script_raised : ScriptRun

-- The attribute of a module, and the call of the function that it is
pub data Builtin : Type 0 where
  import_error : Builtin
  no_attribute : Builtin
  attribute_none : Builtin
  called : Json → Builtin
  call_raised : Builtin

-- A request: httpx.HTTPError, another exception, or the document of a good answer.
pub data Answer : Type 0 where
  http_error : Answer
  other_error : Answer
  document : Json → Answer

pub record Outside : Type 0 where
  pub environ : Text → Option Text
  pub resolver : Credentials.CredentialResolver
  pub secrets : Credentials.Outside
  pub run_script : Text → Fields → Text → ScriptRun
  -- the method, the URL, the body and the headers
  pub request : Text → Text → Json → List (Text × Text) → Answer
  pub builtin : Text → Text → Fields → Builtin
  -- `session.get_credentials() is not None`
  pub aws_credentials : Bool
  -- the service, the region, the method, the URL and the body of a signed request
  pub aws_request : Text → Text → Text → Text → Option Text → Option Text
  -- xmltodict, where it is installed; none in it where parsing raises
  pub parse_xml : Option (Text → Option Json)
  -- `str` of a value, and json.dumps and json.loads
  pub show : Json → Text
  pub dumps : Json → Option Text
  pub loads : Text → Option Json
  -- json.dumps with sorted keys, and the digest in hexadecimal
  pub dumps_sorted : Fields → Text
  pub sha256_hex : Text → Text

-- `endpoint.get(key)` of a key that holds text
unfoldable pub text_at : String → Dict Json → Option Text
text_at k endpoint = elim (lookup k endpoint) [ some (str t) ↦ some t | _ ↦ none ]

-- `url.replace("{k}", str(v))` for each input
unfoldable pub filled : Outside → Fields → Text → Text
filled o end url = url
filled o (field k v inputs) url =
    filled o inputs (replace (123 ∷ (codes k ++ (125 ∷ []))) (o.show v) url)

abbrev upper_char : ℕ → ℕ
upper_char c = if leb 97 c && leb c 122 then c - 32 else c

-- `t.upper()` of ASCII text
unfoldable pub upper : Text → Text
upper t = map upper_char t

-- The text of a key that is there and not empty.
abbrev pub nonempty_at : String → Dict Json → Option Text
nonempty_at k endpoint = Credentials.given (text_at k endpoint)

abbrev pub answered : Answer → Outcome Json
answered (document j) = returned j
answered _ = raised
