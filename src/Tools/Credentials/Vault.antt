-- ===== src/Tools/Credentials/Vault.antt =====
-- Secrets that are resolved: the parts of a reference to Vault, and what is never returned.
use chat_aiagent.Prelude.{
  ◌≡◌, inl, inr, false, Option, none, some, [], ◌∷◌, ◌++◌, Text, ℕ, codes, is_empty_text, arith,
  starts_with, drop, has_char, Option-cases,
}
use chat_aiagent.Prelude.Json.{Json, str, obj, Fields}
use chat_aiagent.Tools.Texts.{cut-append}
use chat_aiagent.Tools.Credentials.{
  Outside, CredentialResolver, resolved, answer, given, index, index_in, field_value, fragment,
  resolve_env, resolve_vault, vault_url, vault_token_resolved, read_answer, named_field, AwsAnswer,
  no_boto3, client_error, aws_raised, secret, read_aws, get_aws_secret, aresolve,
}

has_char-append :
    (c : ℕ) (a b : Text) → has_char c a ≡ false → has_char c b ≡ false → has_char c (a ++ b) ≡ false
has_char-append c [] b h k = k
has_char-append c (d ∷ a) b h k = ground (arith, has_char-append c a b)

abbrev pub path_ref : Text → Text → Text
path_ref mount path = mount ++ (codes "/" ++ path)

fragment-append :
    (path f : Text)
    → has_char 35 path ≡ false
    → fragment (path ++ (codes "#" ++ f)) ≡ (path, some f)
unfolding fragment
fragment-append path f h = ground (arith, cut-append 35 [] path f h)

resolve_vault_ref :
    (o : Outside) (r : CredentialResolver) (addr t mount path f v : Text) (body : Json)
    (fs : Fields)
    → given r.vault_addr ≡ some addr
    → given r.vault_token ≡ some t
    → has_char 47 mount ≡ false
    → has_char 35 mount ≡ false
    → has_char 35 path ≡ false
    → is_empty_text f ≡ false
    → o.vault_get (vault_url addr mount path) (str t) ≡ answer 200 (some body)
    → index_in "data" (index "data" body) ≡ some (obj fs)
    → field_value f fs ≡ some (str v)
    → resolve_vault o r (path_ref mount path ++ (codes "#" ++ f)) ≡ resolved v
unfolding resolve_vault vault_token_resolved read_answer named_field
resolve_vault_ref o r addr t mount path [] v body fs a k m n p ne got shape value =
    absurd (ground arith)
resolve_vault_ref o r addr t mount path (c ∷ f) v body fs a k m n p ne got shape value = ground (
  arith,
  fragment-append (path_ref mount path) (c ∷ f) (has_char-append 35 mount (47 ∷ path) n p),
  cut-append 47 [] mount path m,
)

-- A reference "vault:mount/path#field" is taken apart as it was put together, where the mount lacks
-- "/" and "#", the path lacks "#" and the field is not empty: with an address and a token, and where
-- Vault answers 200 at the address of this mount and this path with data that has the field as a
-- string, the secret is that string.
pub aresolve-path_ref :
    (o : Outside) (r : CredentialResolver) (addr t mount path f v : Text) (body : Json)
    (fs : Fields)
    → given r.vault_addr ≡ some addr
    → given r.vault_token ≡ some t
    → has_char 47 mount ≡ false
    → has_char 35 mount ≡ false
    → has_char 35 path ≡ false
    → is_empty_text f ≡ false
    → o.vault_get (vault_url addr mount path) (str t) ≡ answer 200 (some body)
    → index_in "data" (index "data" body) ≡ some (obj fs)
    → field_value f fs ≡ some (str v)
    → aresolve o r (codes "vault:" ++ (path_ref mount path ++ (codes "#" ++ f))) ≡ resolved v
unfolding aresolve
aresolve-path_ref o r addr t mount path f v body fs a k m n p ne got shape value =
    resolve_vault_ref o r addr t mount path f v body fs a k m n p ne got shape value

given_nonempty : (x : Option Text) (t : Text) → given x ≡ some t → is_empty_text t ≡ false
given_nonempty none t h = absurd (ground arith)
given_nonempty (some []) t h = absurd (ground arith)
given_nonempty (some (c ∷ s)) t h = ground arith

resolve_env_nonempty :
    (o : Outside) (name s : Text) → resolve_env o name ≡ resolved s → is_empty_text s ≡ false
unfolding resolve_env
resolve_env_nonempty o name s h = elim (Option-cases (given (o.environ name))) [
  | inl e ↦ absurd (ground arith)
  | inr (t, e) ↦ ground (arith, given_nonempty (o.environ name) t e)
]

read_aws_nonempty :
    (id : Text) (a : AwsAnswer) (s : Text) → read_aws id a ≡ resolved s → is_empty_text s ≡ false
unfolding read_aws
read_aws_nonempty id no_boto3 s h = absurd (ground arith)
read_aws_nonempty id (client_error code) s h = absurd (ground arith)
read_aws_nonempty id aws_raised s h = absurd (ground arith)
read_aws_nonempty id (secret text binary) s h = elim (Option-cases (given text)) [
  | inr (t, e) ↦ ground (arith, given_nonempty text t e)
  | inl e ↦ elim (Option-cases (given binary)) [
    | inr (t, f) ↦ ground (arith, given_nonempty binary t f)
    | inl f ↦ absurd (ground arith)
  ]
]

get_aws_secret_nonempty :
    (o : Outside) (id s : Text) → get_aws_secret o id ≡ resolved s → is_empty_text s ≡ false
unfolding get_aws_secret
get_aws_secret_nonempty o id s h = read_aws_nonempty id (o.get_secret_value id) s h

-- What a reference resolves to is not the empty text, unless the reference is to Vault: a variable of
-- the environment and a secret of AWS that are empty are refused like those that are missing.
pub aresolve_nonempty :
    (o : Outside) (r : CredentialResolver) (ref s : Text)
    → starts_with ref (codes "vault:") ≡ false
    → aresolve o r ref ≡ resolved s
    → is_empty_text s ≡ false
unfolding aresolve
aresolve_nonempty o r ref s other h = ground (
  arith,
  resolve_env_nonempty o (drop 4 ref) s,
  resolve_env_nonempty o ref s,
  get_aws_secret_nonempty o (drop 4 ref) s,
)
