-- ===== src/Tools/Aws.antt =====
-- worker_agent/tools/dispatcher.py, _invoke_aws_sync: the signed request to AWS. botocore, urllib
-- and xmltodict are outside.
use chat_aiagent.Prelude.{
  String, Bool, true, false, ◌||◌, ◌&&◌, ltb, ◌==◌, Option, none, some, List, [], ◌∷◌, ◌++◌, Text,
  Dict, lookup, insert, codes, text_eq, join, is_some, is_empty_text, or_else, if◌then◌else◌,
}
use chat_aiagent.Prelude.Json.{Json, null, str, obj, Fields, end, field}
use chat_aiagent.Tools.Texts.{replace}
use chat_aiagent.Tools.Base.{Outside, Outcome, returned, refused, raised, text_at, filled}

abbrev is_null : Json → Bool
is_null null = true
is_null _ = false

abbrev value_at : Text → Fields → Option Json
value_at k end = none
value_at k (field j v fs) = let rest = value_at k fs in if text_eq (codes j) k then some v else rest

-- `inputs.get(region_param, os.environ.get("AWS_DEFAULT_REGION", "us-east-1"))`
unfoldable pub region_of : Outside → Text → Fields → Json
region_of o param inputs =
    or_else (value_at param inputs)
      (str (or_else (o.environ (codes "AWS_DEFAULT_REGION")) (codes "us-east-1")))

-- The inputs but the region and those that are None, as text.
unfoldable pub input_params : Outside → Text → Fields → Dict Text
input_params o param end = []
input_params o param (field k v fs) =
    let rest = input_params o param fs in
    if text_eq (codes k) param || is_null v then rest else (k, o.show v) ∷ rest

-- `params.setdefault("Version", …)`
abbrev with_version : Dict Text → Dict Text
with_version ps =
    if is_some (lookup "Version" ps) then ps else insert "Version" (codes "2016-11-15") ps

unfoldable pub params : Outside → Text → Text → Fields → Dict Text
unfolding input_params
params o param action inputs =
    if is_empty_text action
    then input_params o param inputs
    else with_version (insert "Action" action (input_params o param inputs))

-- The order of Python's texts.
abbrev comes_before : Text → Text → Bool
comes_before [] [] = false
comes_before [] (d ∷ t) = true
comes_before (c ∷ s) [] = false
comes_before (c ∷ s) (d ∷ t) = ltb c d || ((c == d) && comes_before s t)

abbrev placed : String × Text → Dict Text → Dict Text
placed p [] = p ∷ []
placed p (q ∷ ps) =
    let rest = placed p ps in
    if comes_before (codes q.0) (codes p.0) then q ∷ rest else p ∷ (q ∷ ps)

unfoldable pub sorted : Dict Text → Dict Text
sorted [] = []
sorted (p ∷ ps) = placed p (sorted ps)

abbrev pairs : Dict Text → List Text
pairs [] = []
pairs ((k, v) ∷ ps) = (codes k ++ (codes "=" ++ v)) ∷ pairs ps

-- `"&".join(f"{k}={v}" for k, v in sorted(params.items()))`
unfoldable pub body_of : Dict Text → Text
unfolding sorted
body_of ps = join (codes "&") (pairs (sorted ps))

abbrev parsed : Outside → Option Text → Outcome Json
parsed o none = raised
parsed o (some raw) = elim o.parse_xml [
  | none ↦ returned (obj (field "raw_xml" (str raw) end))
  | some parse ↦ elim (parse raw) [ none ↦ raised | some j ↦ returned j ]
]

abbrev body_or_none : Text → Option Text
body_or_none [] = none
body_or_none (c ∷ t) = some (c ∷ t)

abbrev sent : Outside → Dict Json → Fields → Text → Text → Text → Text → Outcome Json
sent o endpoint inputs service region param url =
    if o.aws_credentials
    then parsed o (
        o.aws_request service region (or_else (text_at "method" endpoint) (codes "POST"))
          (replace (codes "{region}") region
            (replace (codes "{service}") service (filled o inputs url)))
          (body_or_none (body_of (params o param (or_else (text_at "action" endpoint) []) inputs))))
    else refused (codes "AWS credentials not found — set AWS_ACCESS_KEY_ID / AWS_SECRET_ACCESS_KEY")

-- A region that is no text is not replaced in the URL: `str.replace` raises.
abbrev in_region : Outside → Dict Json → Fields → Text → Text → Text → Json → Outcome Json
in_region o endpoint inputs service param url (str region) =
    sent o endpoint inputs service region param url
in_region o endpoint inputs service param url _ = raised

unfoldable pub invoke_aws_sync : Outside → Dict Json → Fields → Outcome Json
unfolding region_of body_of params text_at filled
invoke_aws_sync o endpoint inputs = elim (text_at "url" endpoint) [
  | none ↦ raised
  | some url ↦
      let service = or_else (text_at "aws_service" endpoint) (codes "ec2") in
      let param = or_else (text_at "aws_region_param" endpoint) (codes "region") in
      in_region o endpoint inputs service param url (region_of o param inputs)
]
