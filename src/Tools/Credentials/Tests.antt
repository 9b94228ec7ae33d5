-- ===== src/Tools/Credentials/Tests.antt =====
-- Secrets of an environment, of Vault and of AWS.
use chat_aiagent.Prelude.{
  ◌≡◌, refl, Option, none, some, [], ◌++◌, Text, codes, text_eq, if◌then◌else◌,
}
use chat_aiagent.Prelude.Json.{Json, str, obj, Fields, end, field, get}
use chat_aiagent.Tools.Texts.{rstrip}
use chat_aiagent.Tools.Credentials.{
  Outside, CredentialResolver, resolved, refused, answer, no_answer, secret, field_value,
  resolve_env, read_aws, get_aws_secret, aresolve, from_env,
}
use chat_aiagent.Tools.Credentials.Vault.{path_ref, aresolve-path_ref}

abbrev variables : Text → Option Text
variables name =
    if text_eq name (codes "TOKEN")
    then some (codes "t0k")
    else if text_eq name (codes "EMPTY")
    then some []
    else none

abbrev fields : Fields
fields = field "user" (str (codes "ops")) (field "key" (str (codes "k1")) end)

abbrev body : Json
body = obj (field "data" (obj (field "data" (obj fields) end)) end)

abbrev outside : Outside
outside = record {
  environ = variables;
  service_account_token = none;
  vault_get = λ url token.
      if text_eq url (codes "http://v/v1/kv/data/app/db")
      then answer 200 (some body)
      else no_answer;
  vault_post = λ url role jwt. no_answer;
  get_secret_value = λ id. secret (some []) (some (codes "b1n"));
  show = λ j. [];
}

abbrev resolver : CredentialResolver
resolver = record {
  vault_addr = some (codes "http://v/");
  vault_token = some (codes "s.1");
  vault_k8s_role = none;
}

aresolve-path_ref_example :
    aresolve outside resolver
      (codes "vault:" ++ (path_ref (codes "kv") (codes "app/db") ++ (codes "#" ++ codes "key")))
    ≡ resolved (codes "k1")
unfolding rstrip get field_value
aresolve-path_ref_example =
    aresolve-path_ref outside resolver (codes "http://v/") (codes "s.1") (codes "kv")
      (codes "app/db") (codes "key") (codes "k1") body fields refl refl refl refl refl refl refl
      refl refl

empty_variable :
    aresolve outside (from_env outside) (codes "EMPTY")
    ≡ refused (codes "env var 'EMPTY' is not set")
unfolding aresolve resolve_env from_env
empty_variable = refl

-- A secret of AWS that has no text is taken from its bytes.
aws_binary : aresolve outside resolver (codes "aws:db") ≡ resolved (codes "b1n")
unfolding aresolve get_aws_secret read_aws
aws_binary = refl
