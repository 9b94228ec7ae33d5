-- ===== src/Tools/Credentials.antt =====
-- worker_agent/tools/credentials.py. The environment, Vault, the service account's file, AWS and
-- `str` on a document that is not a string are arguments. What the f-strings put in the messages
-- beside the reference and the status is left out.
pub mod Vault
mod Tests
use chat_aiagent.Prelude.{
  ℕ, String, Bool, true, false, not, Option, none, some, List, [], ◌∷◌, ◌++◌, Text, codes, text_eq,
  starts_with, strip, drop, any, is_some, ◌==◌, if◌then◌else◌, is_empty_text, decimal,
}
use chat_aiagent.Prelude.Json.{
  Json, null, bool, num, str, arr, obj, Items, nil, cons, Fields, end, field, get, items,
}
use chat_aiagent.Tools.Texts.{cut, rstrip}

-- A secret, a CredentialResolveError with its message, or another exception.
pub data Resolved : Type 0 where
  resolved : Text → Resolved
  refused : Text → Resolved
  raised : Resolved

-- What a request to Vault gives: no answer, or a status with the body, if that is a document.
pub data Answer : Type 0 where
  no_answer : Answer
  answer : ℕ → Option Json → Answer

pub data AwsAnswer : Type 0 where
  no_boto3 : AwsAnswer
  client_error : Text → AwsAnswer
  aws_raised : AwsAnswer
  secret : Option Text → Option Text → AwsAnswer

pub record Outside : Type 0 where
  pub environ : Text → Option Text
  pub service_account_token : Option Text
  -- the URL and the value of X-Vault-Token
  pub vault_get : Text → Json → Answer
  -- the URL, the role and the token
  pub vault_post : Text → Text → Text → Answer
  pub get_secret_value : Text → AwsAnswer
  pub show : Json → Text

pub record CredentialResolver : Type 0 where
  pub vault_addr : Option Text
  pub vault_token : Option Text
  pub vault_k8s_role : Option Text

unfoldable pub from_env : Outside → CredentialResolver
from_env o = record {
  vault_addr = o.environ (codes "VAULT_ADDR");
  vault_token = o.environ (codes "PLATFORM_VAULT_TOKEN");
  vault_k8s_role = o.environ (codes "VAULT_K8S_ROLE");
}

-- The text of a value that is neither None nor empty.
abbrev pub given : Option Text → Option Text
given none = none
given (some []) = none
given (some (c ∷ t)) = some (c ∷ t)

-- `document[key]`; none where it raises KeyError or TypeError
abbrev pub index : String → Json → Option Json
index k (obj fs) = get k fs
index k _ = none

abbrev pub index_in : String → Option Json → Option Json
index_in k none = none
index_in k (some j) = index k j

unfoldable pub field_value : Text → Fields → Option Json
field_value k end = none
field_value k (field j v fs) = if text_eq (codes j) k then some v else field_value k fs

abbrev is_str : Text → Json → Bool
is_str k (str t) = text_eq k t
is_str k _ = false

abbrev pub first_string : Fields → Option Text
first_string end = none
first_string (field j (str t) fs) = some t
first_string (field j v fs) = first_string fs

unfoldable pub resolve_env : Outside → Text → Resolved
resolve_env o name = elim (given (o.environ name)) [
  | none ↦ refused (codes "env var '" ++ (name ++ codes "' is not set"))
  | some t ↦ resolved t
]

-- The fragment after "#", if there is one.
unfoldable pub fragment : Text → Text × Option Text
fragment ref = elim (cut (codes "#") ref) [ none ↦ (ref, none) | some (a, b) ↦ (a, some b) ]

abbrev to_text : Outside → Json → Text
to_text o (str t) = t
to_text o j = o.show j

abbrev pub absent : Text → Text → Text
absent f ref =
    codes "Field '" ++ (f ++ (codes "' not found in Vault secret '" ++ (ref ++ codes "'")))

-- `field in data` and `data[field]`; a list and a string can contain the field, but are not indexed
-- by it, and the other documents contain nothing.
unfoldable pub named_field : Outside → Text → Text → Json → Resolved
named_field o ref f (obj fs) = elim (field_value f fs) [
  | none ↦ refused (absent f ref)
  | some v ↦ resolved (to_text o v)
]
named_field o ref f (arr vs) = if any (is_str f) (items vs) then raised else refused (absent f ref)
named_field o ref f (str t) = if is_some (cut f t) then raised else refused (absent f ref)
named_field o ref f _ = raised

unfoldable pub any_field : Text → Json → Resolved
any_field ref (obj fs) = elim (first_string fs) [
  | none ↦ refused (codes "No string value found in Vault secret '" ++ (ref ++ codes "'"))
  | some t ↦ resolved t
]
any_field ref _ = raised

abbrev from_data : Outside → Text → Option Text → Option Json → Resolved
from_data o ref f none =
    refused (codes "Unexpected Vault response shape for '" ++ (ref ++ codes "'"))
from_data o ref none (some d) = any_field ref d
from_data o ref (some f) (some d) = named_field o ref f d

abbrev from_body : Outside → Text → Option Text → Option Json → Resolved
from_body o ref f none = raised
from_body o ref f (some j) = from_data o ref f (index_in "data" (index "data" j))

unfoldable pub read_answer : Outside → Text → Option Text → Answer → Resolved
unfolding named_field any_field
read_answer o ref f no_answer = raised
read_answer o ref f (answer status body) =
    if status == 404
    then refused (codes "Vault secret not found: " ++ ref)
    else if not (status == 200)
    then refused (
        codes "Vault returned "
        ++ (decimal status ++ (codes " for secret '" ++ (ref ++ codes "'"))))
    else from_body o ref (given f) body

-- A token of Vault, or what ends the resolution.
pub data Token : Type 0 where
  token : Json → Token
  ended : Resolved → Token

abbrev login_token : Option Json → Token
login_token none = ended (refused (codes "Vault K8s login: unexpected response shape"))
login_token (some j) = token j

abbrev login_body : Option Json → Token
login_body none = ended raised
login_body (some j) = login_token (index_in "client_token" (index "auth" j))

abbrev login_answer : Answer → Token
login_answer no_answer = ended raised
login_answer (answer status body) =
    if status == 200
    then login_body body
    else ended (refused (codes "Vault K8s login returned " ++ decimal status))

unfoldable pub vault_k8s_login : Outside → Text → Text → Token
vault_k8s_login o addr role = elim o.service_account_token [
  | none ↦ ended (refused (codes "Vault K8s login failed: service account token not found"))
  | some t ↦
      login_answer
        (o.vault_post (rstrip 47 addr ++ codes "/v1/auth/kubernetes/login") role (strip t))
]

unfoldable pub vault_token_resolved : Outside → CredentialResolver → Text → Token
unfolding vault_k8s_login
vault_token_resolved o r addr = elim (given r.vault_token) [
  | some t ↦ token (str t)
  | none ↦ elim (given r.vault_k8s_role) [
    | some role ↦ vault_k8s_login o addr role
    | none ↦
        ended
          (refused (codes "No Vault token available — set PLATFORM_VAULT_TOKEN or VAULT_K8S_ROLE"))
  ]
]

abbrev pub vault_url : Text → Text → Text → Text
vault_url addr mount path = rstrip 47 addr ++ (codes "/v1/" ++ (mount ++ (codes "/data/" ++ path)))

abbrev with_token : Outside → Text → Option Text → Text → Token → Resolved
with_token o ref f url (ended e) = e
with_token o ref f url (token t) = read_answer o ref f (o.vault_get url t)

abbrev at_path :
    Outside → CredentialResolver → Text → Text → Option Text → Option (Text × Text) → Resolved
at_path o r addr ref f none =
    refused (codes "vault secret_ref must be 'mount/path[#field]', got: '" ++ (ref ++ codes "'"))
at_path o r addr ref f (some (mount, path)) =
    with_token o ref f (vault_url addr mount path) (vault_token_resolved o r addr)

unfoldable pub resolve_vault : Outside → CredentialResolver → Text → Resolved
unfolding fragment read_answer vault_token_resolved
resolve_vault o r ref = elim (given r.vault_addr) [
  | none ↦ refused (codes "VAULT_ADDR is not configured")
  | some addr ↦ let (path, f) = fragment ref in at_path o r addr ref f (cut (codes "/") path)
]

abbrev pub aws_value : Text → Option Text → Resolved
aws_value id none =
    refused (codes "AWS secret '" ++ (id ++ codes "' returned no SecretString or SecretBinary"))
aws_value id (some t) = resolved t

-- `resp.get("SecretString") or resp.get("SecretBinary")`, the latter as it is decoded
abbrev pub first_given : Option Text → Option Text → Option Text
first_given a b = elim (given a) [ some t ↦ some t | none ↦ given b ]

unfoldable pub read_aws : Text → AwsAnswer → Resolved
read_aws id no_boto3 = refused (codes "boto3 is not installed — cannot resolve aws: secret refs")
read_aws id (client_error code) =
    refused (codes "AWS Secrets Manager error for '" ++ (id ++ (codes "': " ++ code)))
read_aws id aws_raised = raised
read_aws id (secret text binary) = aws_value id (first_given text binary)

unfoldable pub get_aws_secret : Outside → Text → Resolved
unfolding read_aws
get_aws_secret o id = read_aws id (o.get_secret_value id)

unfoldable pub aresolve : Outside → CredentialResolver → Text → Resolved
unfolding resolve_env resolve_vault get_aws_secret
aresolve o r ref =
    if is_empty_text ref
    then refused (codes "secret_ref is empty")
    else if starts_with ref (codes "env:")
    then resolve_env o (drop 4 ref)
    else if starts_with ref (codes "vault:")
    then resolve_vault o r (drop 6 ref)
    else if starts_with ref (codes "aws:")
    then get_aws_secret o (drop 4 ref)
    else resolve_env o ref
